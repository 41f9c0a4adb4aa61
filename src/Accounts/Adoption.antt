-- ===== src/Accounts/Adoption.antt =====
-- internal/accounts/accounts.go: what AdoptLegacy leaves of the files, in any order of its names.
use whatsapp_connect_mcp.Prelude.{
  String, Bool, true, none, some, List, [], ◌∷◌, ◌++◌, ◌==◌, ◌≡◌, ◌⊎◌, arith, eq_iff, contains,
  Option-cases, Bool-cases, inl, inr, subst, sym,
}
use whatsapp_connect_mcp.Prelude.Dict.{lookup, lookup-remove, lookup-insert}
use whatsapp_connect_mcp.Accounts.{
  legacy_names, Layout, Adopted, AdoptError, occupied, not_renamed, moved_to, adopt, adopt_legacy,
}

legacy_target : (n t : String) → lookup n legacy_names ≡ some t → t ≡ n
unfolding lookup
legacy_target n t h = ground (
  arith,
  h,
  eq_iff "messages.db" n,
  eq_iff "messages.db-wal" n,
  eq_iff "messages.db-shm" n,
  eq_iff "media" n,
  eq_iff "backups" n,
  eq_iff "schedules.json" n,
  eq_iff "session-trust" n,
)

module _ {C : Type 0} where
  -- From one layout to another no file is lost, none of the account is overwritten, and none comes
  -- back to the data directory.
  pub record Keeps (l l' : Layout C) : Type 0 where
    pub kept : (n : String) (c : C) → lookup n l.account ≡ some c → lookup n l'.account ≡ some c
    pub found :
        (n : String) (c : C)
        → lookup n l.root ≡ some c
        → (lookup n l'.root ≡ some c) ⊎ (lookup n l'.account ≡ some c)
    pub gone : (n : String) → lookup n l.root ≡ none → lookup n l'.root ≡ none

  same-Keeps : (l : Layout C) → Keeps l l
  same-Keeps l = record { kept = λ n c h. h; found = λ n c h. inl h; gone = λ n h. h }

  then-Keeps : (l m r : Layout C) → Keeps l m → Keeps m r → Keeps l r
  then-Keeps l m r p q = record {
    kept = λ n c h. q.kept n c (p.kept n c h);
    found = λ n c h. elim (p.found n c h) [ inl e ↦ q.found n c e | inr e ↦ inr (q.kept n c e) ];
    gone = λ n h. q.gone n (p.gone n h);
  }

  moved_to-Keeps :
      (n : String) (c : C) (l : Layout C)
      → lookup n l.root ≡ some c
      → lookup n l.account ≡ none
      → Keeps l (moved_to n n c l)
  moved_to-Keeps n c l h k = record {
    kept = λ j x e. ground (arith, lookup-insert n j c l.account, eq_iff n j, e, k);
    found = λ j x e. elim (Bool-cases (n == j)) [
      | inl s ↦ inr (ground (arith, lookup-insert n j c l.account, eq_iff n j, e, h, s))
      | inr s ↦ inl (ground (arith, lookup-remove n j l.root, e, s))
    ];
    gone = λ j e. ground (arith, lookup-remove n j l.root, e);
  }

  -- What a run answers: the layout keeps what there was, and without an error the names of the run
  -- are gone from the data directory.
  abbrev Leaves : List String → Layout C → Adopted C → Type 0
  Leaves order l p =
      Keeps l p.1
      × (p.0.1 ≡ none
          → (n t : String) → contains order n ≡ true
          → lookup n legacy_names ≡ some t
          → lookup n p.1.root ≡ none)

  stopped-Leaves :
      (order moved : List String) (l : Layout C) (e : AdoptError)
      → Leaves order l ((moved, some e), l)
  stopped-Leaves order moved l e = (same-Keeps l, λ h. absurd (ground (arith, h)))

  -- A name that has no file in the data directory, or is no name of the old layout.
  next-Leaves :
      (x : String) (order : List String) (l m : Layout C) (p : Adopted C)
      → ((t : String) → lookup x legacy_names ≡ some t → lookup x m.root ≡ none)
      → Keeps l m
      → Leaves order m p
      → Leaves (x ∷ order) l p
  next-Leaves x order l m p h k (keeps, gone) = (
    then-Keeps l m p.1 k keeps,
    λ e n t i j. elim (Bool-cases (x == n)) [
      | inr s ↦ gone e n t (ground (arith, i, s)) j
      | inl s ↦
          let same : x ≡ n = (eq_iff x n).0 s in
          keeps.gone n (
            subst (λ y. lookup y m.root ≡ none) same
              (h t (subst (λ y. lookup y legacy_names ≡ some t) (sym same) j)))
    ],
  )

  adopt-Leaves :
      (renames : String → Bool) (order moved : List String) (l : Layout C)
      → Leaves order l (adopt renames order moved l)
  unfolding adopt
  adopt-Leaves renames [] moved l = (same-Keeps l, λ e n t i. absurd (ground (arith, i)))
  adopt-Leaves renames (x ∷ order) moved l =
      let answer : Adopted C → Type 0 = Leaves (x ∷ order) l in
      let next : Adopted C = adopt renames order moved l in
      elim (Option-cases (lookup x legacy_names)) [
        | inl e ↦
            let same : next ≡ adopt renames (x ∷ order) moved l = ground (arith, e) in
            subst answer same (
              next-Leaves x order l l next (λ t h. absurd (ground (arith, h, e))) (same-Keeps l)
                (adopt-Leaves renames order moved l))
        | inr (t, e) ↦ elim (Option-cases (lookup x l.root)) [
          | inl r ↦
              let same : next ≡ adopt renames (x ∷ order) moved l = ground (arith, e, r) in
              subst answer same (
                next-Leaves x order l l next (λ _ _. r) (same-Keeps l)
                  (adopt-Leaves renames order moved l))
          | inr (c, r) ↦ elim (Option-cases (lookup t l.account)) [
            | inr (d, a) ↦
                let same : ((moved, some (occupied x)), l) ≡ adopt renames (x ∷ order) moved l =
                  ground (arith, e, r, a) in
                subst answer same (stopped-Leaves (x ∷ order) moved l _)
            | inl a ↦ elim (Bool-cases (renames x)) [
              | inr f ↦
                  let same : ((moved, some (not_renamed x)), l)
                      ≡ adopt renames (x ∷ order) moved l =
                    ground (arith, e, r, a, f) in
                  subst answer same (stopped-Leaves (x ∷ order) moved l _)
              | inl f ↦
                  let there : t ≡ x = legacy_target x t e in
                  let m : Layout C = moved_to x t c l in
                  let rest : Adopted C = adopt renames order (moved ++ (x ∷ [])) m in
                  let same : rest ≡ adopt renames (x ∷ order) moved l =
                    ground (arith, e, r, a, f) in
                  subst answer same (
                    next-Leaves x order l m rest
                      (λ _ _. ground (arith, lookup-remove x x l.root, eq_iff x x))
                      (subst (λ y. Keeps l (moved_to x y c l)) (sym there)
                        (moved_to-Keeps x c l r (subst (λ y. lookup y l.account ≡ none) there a)))
                      (adopt-Leaves renames order (moved ++ (x ∷ [])) m))
            ]
          ]
        ]
      ]

  -- AdoptLegacy, in whatever order its names come and whichever renames the system refuses, loses no
  -- file, overwrites none of the account and brings none back. Where it answers no error, every file
  -- of the old layout whose name was visited is out of the data directory and in the account's one,
  -- unchanged.
  pub adopt_legacy-Keeps :
      (renames : String → Bool) (order : List String) (l : Layout C)
      → Keeps l (adopt_legacy renames order l).1
        × ((adopt_legacy renames order l).0.1 ≡ none
            → (n t : String) (c : C) → contains order n ≡ true
            → lookup n legacy_names ≡ some t
            → lookup n l.root ≡ some c
            → (lookup n (adopt_legacy renames order l).1.root ≡ none)
              × (lookup n (adopt_legacy renames order l).1.account ≡ some c))
  unfolding adopt_legacy
  adopt_legacy-Keeps renames order l =
      let (keeps, gone) = adopt-Leaves renames order [] l in
      (
        keeps,
        λ e n t c i j h.
            let out = gone e n t i j in
            (out, elim (keeps.found n c h) [ inl k ↦ absurd (ground (arith, k, out)) | inr k ↦ k ]),
      )
