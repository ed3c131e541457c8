-- ===== src/Application/Disclosure.antt =====
-- src/agent/mod.rs, `select`: what leaves the vault, and with what authority.
use credman.Base.{
  String, ◌≡◌, refl, ◌∙◌, true, false, Option, none, [], ◌∷◌, arith, inl, inr, nat_eq,
  if◌then◌else◌, Option-cases, contains, any, is_some,
}
use credman.Base.Dict.{lookup, insert, lookup-insert}
use credman.Result.{ok, Result-cases}
use credman.Types.{
  Uuid, Time, AuthenticatedContext, TaskApproval, Record, Application, Fields, Field, secret,
  SecretInput, Permission, metadata_read, field_eq, permission_eq,
}
use credman.Policy.{task, find_record}
use credman.Policy.Authority.{Covers, Source, can_sound}
use credman.Application.Select.{pick, select}

-- The loop takes each requested field from the record, and nothing else.
pick_exact :
    (from : SecretInput) (fields : Fields) (acc vs : SecretInput) (g : Field)
    → pick from fields acc ≡ ok vs
    → (lookup g vs ≡ (if contains fields g then lookup g from else lookup g acc))
      × (contains fields g ≡ true → is_some (lookup g from) ≡ true)
unfolding pick
pick_exact from [] acc vs g h = ground arith
pick_exact from (f ∷ fields) acc vs g h = elim (Option-cases (lookup f from)) [
  | inl missing ↦ absurd (ground arith)
  | inr (v, held) ↦ ground (
    arith,
    pick_exact from fields (insert f v acc) vs g (ground arith),
    lookup-insert f g v acc,
    field_eq.beq_iff f g,
  )
]

-- A selection that succeeds.
pub record Discloses (app : Application) (ctx : AuthenticatedContext) (id record_id : Uuid)
    (fields : Fields) (p : Permission) (d : Option String) (now : Time) (vs : SecretInput)
    : Type 0 where
  pub t : TaskApproval
  pub r : Record
  pub live : task app ctx id now ≡ ok t
  pub found : find_record app ctx record_id ≡ ok r
  pub covers : Covers t r p fields d
  pub source : Source app ctx t r p fields d now
  pub exact : (f : Field) → lookup f vs ≡ (if contains fields f then lookup f r.values else none)
  pub complete : (f : Field) → contains fields f ≡ true → is_some (lookup f r.values) ≡ true
  pub public : p ≡ metadata_read → any secret fields ≡ false

-- What is selected are exactly the requested fields of the record, with the record's values, for a
-- live task that covers them, as the creator or by a grant that conveys them. The permission to read
-- metadata selects no secret field.
pub select-Discloses :
    (app : Application) (ctx : AuthenticatedContext) (id record_id : Uuid) (fields : Fields)
    (p : Permission) (d : Option String) (now : Time) (vs : SecretInput)
    → select app ctx id record_id fields p d now ≡ ok vs
    → Discloses app ctx id record_id fields p d now vs
unfolding select
select-Discloses app ctx id record_id fields p d now vs h =
    elim (Result-cases (task app ctx id now)) [
      | inr (e, dead) ↦ absurd (ground arith)
      | inl (t, live) ↦ elim (Result-cases (find_record app ctx record_id)) [
        | inr (e, missing) ↦ absurd (ground arith)
        | inl (r, found) ↦
            let (covers, source) = can_sound app ctx t r p fields d now (ground arith) in
            let picked : pick r.values fields [] ≡ ok vs = ground arith in
            record {
              t = t;
              r = r;
              live = live;
              found = found;
              covers = covers;
              source = source;
              exact = λ f. (pick_exact r.values fields [] vs f picked).0 ∙ nothing_else fields f r;
              complete = λ f. (pick_exact r.values fields [] vs f picked).1;
              public = λ e. ground (arith, permission_eq.beq_iff p metadata_read);
            }
      ]
    ]
  where
    nothing_else :
        (fields : Fields) (f : Field) (r : Record)
        → (if contains fields f then lookup f r.values else lookup f [])
          ≡ (if contains fields f then lookup f r.values else none)
    nothing_else fields f r = unfold lookup in refl
