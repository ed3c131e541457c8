-- ===== src/Policy/Authority.antt =====
-- src/agent/mod.rs, `can`: when a task may act on a record, without the tests of the code.
use credman.Base.{
  String, ◌≡◌, refl, ◌≤◌, ◌↔◌, ◌⊎◌, inl, inr, true, false, ◌&&◌, Option, none, some, List, arith,
  ◌==◌, Eq, string_eq, nat_eq, if◌then◌else◌, any, contains, is_subset, Member, any-elim, any-intro,
  all-elim, all-intro, Bool-cases, Member-contains, contains-Member, is_some_and, is_none_or, ==→≡,
  Option-cases,
}
use credman.Base.Int.{◌<ℤ◌, ltb_ℤ}
use credman.Base.Dict.{lookup, values}
use credman.Types.{
  Uuid, Time, AuthenticatedContext, TaskApproval, Record, Grant, Application, Permission, Fields,
  field_eq, permission_eq,
}
use credman.Policy.Access.{outside_task, grant_allows, can}

abbrev pub Subset {ℓ} : {A : Type ℓ} → List A → List A → Type ℓ
Subset {A = A} xs ys = (a : A) → Member a xs → Member a ys

-- The destination of a private use, if there is one, is listed.
abbrev pub Destined : Option String → List String → Type 0
Destined none listed = Unit
Destined (some d) listed = Member d listed

-- The task covers the action on the record.
pub record Covers (t : TaskApproval) (r : Record) (p : Permission) (fields : Fields)
    (d : Option String) : Type 0 where
  pub service : r.service ≡ t.service
  pub origin : r.origin ≡ t.origin
  pub permission : Member p t.permissions
  pub fields_within : Subset fields t.fields
  pub destination : Destined d t.destinations

-- The grant's version fits the record: any later one if it follows, the same one if it is pinned.
abbrev pub Fits : Grant → Record → Type 0
Fits g r =
    if g.spec.follow_active then (g.version ≤ r.secret_version) else (g.version ≡ r.secret_version)

-- The issuer of a grant is still a live task.
pub record IssuerLive (app : Application) (id : Uuid) (now : Time) : Type 0 where
  pub issuer : TaskApproval
  pub found : lookup id app.tasks ≡ some issuer
  pub unexpired : now <ℤ issuer.expires_at
  pub unrevoked : ¬ Member id app.revoked_tasks

-- The grant allows the action now.
pub record Conveys (app : Application) (ctx : AuthenticatedContext) (r : Record) (p : Permission)
    (fields : Fields) (d : Option String) (now : Time) (g : Grant) : Type 0 where
  pub of_record : g.record_id ≡ r.id
  pub unrevoked : g.revoked ≡ false
  pub unexpired : now <ℤ g.spec.expires_at
  pub fits : Fits g r
  pub live : IssuerLive app g.issuer_task now
  pub recipient : g.spec.recipient ≡ ctx.principal
  pub permission : Member p g.spec.permissions
  pub fields_within : Subset fields g.spec.fields
  pub destination : Destined d g.spec.destinations

-- The record's creator under the creating task, or the recipient of a grant that conveys the action.
abbrev pub Source :
    Application
    → AuthenticatedContext
    → TaskApproval
    → Record
    → Permission
    → Fields
    → Option String
    → Time
    → Type 0
Source app ctx t r p fields d now =
    ((r.created_by ≡ ctx.principal) × (r.task ≡ t.id))
    ⊎ ((g : Grant) × Member g (values app.grants) × Conveys app ctx r p fields d now g)

module _ {ℓ} {A : Type ℓ} ⦃e : Eq A⦄ where
  subset_sound : (xs ys : List A) → is_subset xs ys ≡ true → Subset xs ys
  subset_sound xs ys h a m = contains-Member (all-elim (contains ys) m h)

  subset_complete : (xs ys : List A) → Subset xs ys → is_subset xs ys ≡ true
  subset_complete xs ys s = all-intro (contains ys) xs (λ a m. Member-contains (s a m))

  absent : (xs : List A) (a : A) → ¬ Member a xs → contains xs a ≡ false
  absent xs a n = elim (Bool-cases (contains xs a)) [
    | inl h ↦ absurd (n (contains-Member h))
    | inr h ↦ h
  ]

  present : (xs : List A) (a : A) → contains xs a ≡ false → ¬ Member a xs
  present xs a h m = let k = Member-contains m in ground (arith, h, k)

outside_task_sound :
    (t : TaskApproval) (r : Record) (p : Permission) (fields : Fields) (d : Option String)
    → outside_task t r p fields d ≡ false
    → Covers t r p fields d
unfolding outside_task
outside_task_sound t r p fields none h = record {
  service = ==→≡ r.service t.service (ground arith);
  origin = ==→≡ r.origin t.origin (ground arith);
  permission = contains-Member (ground arith);
  fields_within = subset_sound fields t.fields (ground arith);
  destination = tt;
}
outside_task_sound t r p fields (some d) h = record {
  service = ==→≡ r.service t.service (ground arith);
  origin = ==→≡ r.origin t.origin (ground arith);
  permission = contains-Member (ground arith);
  fields_within = subset_sound fields t.fields (ground arith);
  destination = contains-Member (ground arith);
}

outside_task_complete :
    (t : TaskApproval) (r : Record) (p : Permission) (fields : Fields) (d : Option String)
    → Covers t r p fields d
    → outside_task t r p fields d ≡ false
unfolding outside_task
outside_task_complete t r p fields none c = ground (
  arith,
  string_eq.beq_iff r.service t.service,
  string_eq.beq_iff r.origin t.origin,
  Member-contains c.permission,
  subset_complete fields t.fields c.fields_within,
)
outside_task_complete t r p fields (some d) c = ground (
  arith,
  string_eq.beq_iff r.service t.service,
  string_eq.beq_iff r.origin t.origin,
  Member-contains c.permission,
  subset_complete fields t.fields c.fields_within,
  Member-contains c.destination,
)

module _ (app : Application) (ctx : AuthenticatedContext) (r : Record) (p : Permission)
    (fields : Fields) (now : Time) (g : Grant) where
  issuer_live :
      contains app.revoked_tasks g.issuer_task ≡ false
      → is_some_and (lookup g.issuer_task app.tasks) (λ issuer. ltb_ℤ now issuer.expires_at) ≡ true
      → IssuerLive app g.issuer_task now
  issuer_live kept live = elim (Option-cases (lookup g.issuer_task app.tasks)) [
    | inl missing ↦ absurd (ground arith)
    | inr (issuer, found) ↦ record {
      issuer = issuer;
      found = found;
      unexpired = ground arith;
      unrevoked = present app.revoked_tasks g.issuer_task kept;
    }
  ]

  grant_allows_sound :
      (d : Option String)
      → grant_allows app ctx r p fields d now g ≡ true
      → Conveys app ctx r p fields d now g
  unfolding grant_allows
  grant_allows_sound none h = record {
    of_record = ground arith;
    unrevoked = ground arith;
    unexpired = ground arith;
    fits = ground arith;
    live = issuer_live (ground arith) (ground arith);
    recipient = ==→≡ g.spec.recipient ctx.principal (ground arith);
    permission = contains-Member (ground arith);
    fields_within = subset_sound fields g.spec.fields (ground arith);
    destination = tt;
  }
  grant_allows_sound (some d) h = record {
    of_record = ground arith;
    unrevoked = ground arith;
    unexpired = ground arith;
    fits = ground arith;
    live = issuer_live (ground arith) (ground arith);
    recipient = ==→≡ g.spec.recipient ctx.principal (ground arith);
    permission = contains-Member (ground arith);
    fields_within = subset_sound fields g.spec.fields (ground arith);
    destination = contains-Member (ground arith);
  }

  Destined-complete :
      (d : Option String) (listed : List String)
      → Destined d listed
      → is_none_or d (λ x. contains listed x) ≡ true
  Destined-complete none listed h = refl
  Destined-complete (some d) listed h = Member-contains h

  grant_allows_complete :
      (d : Option String)
      → Conveys app ctx r p fields d now g
      → grant_allows app ctx r p fields d now g ≡ true
  unfolding grant_allows
  grant_allows_complete d c = ground (
    arith,
    c.live.found,
    c.live.unexpired,
    absent app.revoked_tasks g.issuer_task c.live.unrevoked,
    string_eq.beq_iff g.spec.recipient ctx.principal,
    Member-contains c.permission,
    subset_complete fields g.spec.fields c.fields_within,
    Destined-complete d g.spec.destinations c.destination,
  )

module _ (app : Application) (ctx : AuthenticatedContext) (t : TaskApproval) (r : Record)
    (p : Permission) (fields : Fields) (d : Option String) (now : Time) where
  pub can_sound :
      can app ctx t r p fields d now ≡ true
      → Covers t r p fields d × Source app ctx t r p fields d now
  unfolding can
  can_sound h = elim (Bool-cases (outside_task t r p fields d)) [
    | inl out ↦ absurd (ground arith)
    | inr inside ↦ (outside_task_sound t r p fields d inside, source inside)
  ]
    where
      granted :
          any (grant_allows app ctx r p fields d now) (values app.grants) ≡ true
          → Source app ctx t r p fields d now
      granted k =
          let (g, m, allows) =
            any-elim (grant_allows app ctx r p fields d now) (values app.grants) k in
          inr (g, m, grant_allows_sound app ctx r p fields now g d allows)

      source : outside_task t r p fields d ≡ false → Source app ctx t r p fields d now
      source inside = elim (Bool-cases (r.created_by == ctx.principal && r.task == t.id)) [
        | inl own ↦ inl (==→≡ r.created_by ctx.principal (ground arith), ground arith)
        | inr other ↦ granted (ground arith)
      ]

  pub can_complete :
      Covers t r p fields d
      → Source app ctx t r p fields d now
      → can app ctx t r p fields d now ≡ true
  unfolding can
  can_complete c (inl (by, task)) =
      ground (
        arith,
        outside_task_complete t r p fields d c,
        string_eq.beq_iff r.created_by ctx.principal,
      )
  can_complete c (inr (g, m, conveys)) = ground (
    arith,
    outside_task_complete t r p fields d c,
    any-intro (grant_allows app ctx r p fields d now) m
        (grant_allows_complete app ctx r p fields now g d conveys),
  )

  -- `can` allows an action exactly if the task covers it on the record, and either the caller made
  -- the record under this task, or a grant of the record to the caller conveys the action: one that
  -- is neither revoked nor expired, whose version fits, and whose issuing task is live.
  pub can_iff_authority :
      (can app ctx t r p fields d now ≡ true)
      ↔ (Covers t r p fields d × Source app ctx t r p fields d now)
  can_iff_authority = (can_sound, λ h. can_complete h.0 h.1)
