-- ===== src/Application/Origin.antt =====
-- src/agent/mod.rs: where the grants of a later state come from.
use credman.Base.{
  ℕ, ◌≡◌, refl, some, arith, inl, inr, ◌⊎◌, subst, nat_eq, ◌==◌, Option-cases, Bool-cases,
}
use credman.Base.Dict.{Dict, lookup, lookup-insert, lookup-map_values}
use credman.Result.{Result-cases}
use credman.Types.{
  Uuid, AuthenticatedContext, TaskApproval, Grant, GrantSpec, Application, Mutation, create,
  generate, patch, delete, share, revoke, report_outcome, SecretInput, CredentialKind, SignupState,
}
use credman.Application.History.{GrantKept, GrantKept-refl}
use credman.Application.Records.{
  revoke_of, revoke_grant, new_grant, get_record, put_record, create_record, patch_record,
  share_record, revoke_record, delete_record, report_record, carry_out,
}

-- A grant behind a mutation is one from before it, or the one that a share makes.
abbrev pub Origin : AuthenticatedContext → Uuid → Mutation → Application → Uuid → Grant → Type 0
Origin ctx task op app gid g' =
    ((g : Grant) × (lookup gid app.grants ≡ some g) × GrantKept g g')
    ⊎ ((id : Uuid) × (n : ℕ) × (spec : GrantSpec) × (version : ℕ) × (op ≡ share id n spec)
        × (g' ≡ new_grant ctx task id spec version))

module _ (fresh : Uuid) (ctx : AuthenticatedContext) (t : TaskApproval) (task : Uuid)
    (app : Application) (gid : Uuid) (g' : Grant) where
  kept-Origin :
      (op : Mutation) (grants : Dict Uuid Grant)
      → grants ≡ app.grants
      → lookup gid grants ≡ some g'
      → Origin ctx task op app gid g'
  kept-Origin op grants same found = inl (g', ground arith, GrantKept-refl g')

  share-Origin :
      (id n : Uuid) (spec : GrantSpec)
      → lookup gid (share_record fresh ctx task id spec app).1.grants ≡ some g'
      → Origin ctx task (share id n spec) app gid g'
  unfolding share_record get_record put_record
  share-Origin id n spec found = elim (Option-cases (lookup id app.records)) [
    | inl missing ↦ inl (g', ground arith, GrantKept-refl g')
    | inr (r, held) ↦ elim (Result-cases (share_record fresh ctx task id spec app).0) [
      | inr (e, failed) ↦ inl (g', ground arith, GrantKept-refl g')
      | inl (receipt, done) ↦ elim (Bool-cases (fresh == gid)) [
        | inl new ↦ inr (
          id,
          n,
          spec,
          r.secret_version,
          refl,
          ground (
            arith,
            lookup-insert fresh gid (new_grant ctx task id spec r.secret_version) app.grants,
          ),
        )
        | inr old ↦ inl (
          g',
          ground (
            arith,
            lookup-insert fresh gid (new_grant ctx task id spec r.secret_version) app.grants,
          ),
          GrantKept-refl g',
        )
      ]
    ]
  ]

  revoke-Origin :
      (id n grant : Uuid)
      → lookup gid (revoke_record id grant app).1.grants ≡ some g'
      → Origin ctx task (revoke id n grant) app gid g'
  unfolding revoke_record get_record put_record
  revoke-Origin id n grant found = elim (Option-cases (lookup grant app.grants)) [
    | inl missing ↦ inl (g', ground arith, GrantKept-refl g')
    | inr (g, held) ↦ elim (Bool-cases (grant == gid)) [
      | inl hit ↦ inl (
        g,
        ground arith,
        subst (GrantKept g) (ground (arith, lookup-insert grant gid (revoke_grant g) app.grants))
            (let k : GrantKept g (revoke_grant g) = ground arith in k),
      )
      | inr miss ↦ inl (
        g',
        ground (arith, lookup-insert grant gid (revoke_grant g) app.grants),
        GrantKept-refl g',
      )
    ]
  ]

  delete-Origin :
      (id n : Uuid)
      → lookup gid (delete_record id app).1.grants ≡ some g'
      → Origin ctx task (delete id n) app gid g'
  unfolding delete_record get_record put_record
  delete-Origin id n found = elim (Option-cases (lookup id app.records)) [
    | inl missing ↦ inl (g', ground arith, GrantKept-refl g')
    | inr (r, held) ↦ elim (Option-cases (lookup gid app.grants)) [
      | inl absent ↦ absurd (ground (arith, lookup-map_values (revoke_of id) gid app.grants))
      | inr (g, there) ↦ inl (
        g,
        there,
        subst (GrantKept g) (ground (arith, lookup-map_values (revoke_of id) gid app.grants))
            (let k : GrantKept g (revoke_of id g) = ground arith in k),
      )
    ]
  ]

  create_grants :
      (kind : CredentialKind) (values : SecretInput)
      → (create_record fresh ctx t task kind values app).1.grants ≡ app.grants
  unfolding create_record put_record
  create_grants kind values = ground arith

  patch_grants :
      (id : Uuid) (values : SecretInput) → (patch_record id values app).1.grants ≡ app.grants
  unfolding patch_record put_record
  patch_grants id values = ground arith

  report_grants :
      (id : Uuid) (state : SignupState) → (report_record id state app).1.grants ≡ app.grants
  unfolding report_record put_record
  report_grants id state = ground arith

  pub carry_out-Origin :
      (op : Mutation)
      → lookup gid (carry_out fresh ctx t task op app).1.grants ≡ some g'
      → Origin ctx task op app gid g'
  unfolding carry_out
  carry_out-Origin (create kind values) found = kept-Origin _ _ (create_grants kind values) found
  carry_out-Origin (generate _ _ _) found = kept-Origin _ _ refl found
  carry_out-Origin (patch id _ values) found = kept-Origin _ _ (patch_grants id values) found
  carry_out-Origin (delete id n) found = delete-Origin id n found
  carry_out-Origin (share id n spec) found = share-Origin id n spec found
  carry_out-Origin (revoke id n grant) found = revoke-Origin id n grant found
  carry_out-Origin (report_outcome id _ state) found =
      kept-Origin _ _ (report_grants id state) found
