-- ===== src/Understanding/Reconciler/Shown.antt =====
-- What a model's decisions name, and which rows its targets leave as they are.
use recuerdos_ai.Prelude.{
  ℕ, ◌≡◌, refl, subst, Bool, true, not, inl, inr, Option, none, some, is_some, List, [], ◌∷◌, arith,
  ◌==◌, keep, update_where, count_where, contains, nat_eq, Bool-cases, All, is_empty,
}
use recuerdos_ai.Text.{Text, codes, same_text, trim}
use recuerdos_ai.Identity.UserContext.{UserContext}
use recuerdos_ai.Memories.Repository.{
  Store, Row, has_id, is_mine, is_present, mark_superseded, supersede_memory, change_rows,
  refers_to_row,
}
use recuerdos_ai.Memories.Services.Rows.{is_visible, visible}
use recuerdos_ai.Understanding.Reconciler.{
  Decision, add, noop, update, delete, RawDecision, shown_id, target_of, with_target,
  parse_decision, to_ascii_uppercase, or_default, usable, parse_all,
}

module _ (shown : List ℕ) where
  -- A decision that names no memory but those that were shown.
  abbrev pub NamesShown : Decision → Type 0
  NamesShown (add reason) = Unit
  NamesShown (noop reason) = Unit
  NamesShown (update old reason) = contains shown old ≡ true
  NamesShown (delete target reason) = contains shown target ≡ true

  abbrev AllShown : Option ℕ → Type 0
  AllShown none = Unit
  AllShown (some id) = contains shown id ≡ true

  shown_id-AllShown : (o : Option ℕ) → AllShown (shown_id shown o)
  unfolding shown_id
  shown_id-AllShown none = tt
  shown_id-AllShown (some id) = elim (Bool-cases (contains shown id)) [
    | inl e ↦ rw e e
    | inr e ↦ rw e tt
  ]

  target_of-AllShown :
      (id_from_str : Text → Option ℕ) (o : Option Text) → AllShown (target_of id_from_str shown o)
  unfolding target_of
  target_of-AllShown id_from_str none = tt
  target_of-AllShown id_from_str (some raw) = elim (Bool-cases (is_empty (trim raw))) [
    | inl e ↦ rw e tt
    | inr e ↦ rw e (shown_id-AllShown (id_from_str (trim raw)))
  ]

  abbrev OptionShown : Option Decision → Type 0
  OptionShown none = Unit
  OptionShown (some d) = NamesShown d

  with_update :
      (o : Option ℕ) (reason : Text)
      → AllShown o
      → OptionShown (with_target o (λ id. update id reason))
  with_update none reason h = tt
  with_update (some id) reason h = h

  with_delete :
      (o : Option ℕ) (reason : Text)
      → AllShown o
      → OptionShown (with_target o (λ id. delete id reason))
  with_delete none reason h = tt
  with_delete (some id) reason h = h

  abbrev acts : RawDecision → Text → Bool
  acts value name = same_text (to_ascii_uppercase (trim (or_default value.action))) name

  parse_decision-NamesShown :
      (id_from_str : Text → Option ℕ) (value : RawDecision)
      → OptionShown (parse_decision id_from_str shown value)
  unfolding parse_decision
  parse_decision-NamesShown id_from_str value =
      let here = target_of-AllShown id_from_str value.memory_id in
      let reason = trim (or_default value.reason) in
      elim (Bool-cases (acts value (codes "ADD"))) [
        | inl e ↦ rw e tt
        | inr e ↦ elim (Bool-cases (acts value (codes "NOOP"))) [
          | inl k ↦ rw (e, k) tt
          | inr k ↦ elim (Bool-cases (acts value (codes "UPDATE"))) [
            | inl l ↦
                rw (e, k, l) (with_update (target_of id_from_str shown value.memory_id) reason here)
            | inr l ↦ elim (Bool-cases (acts value (codes "DELETE"))) [
              | inl m ↦
                  rw (e, k, l, m)
                    (with_delete (target_of id_from_str shown value.memory_id) reason here)
              | inr m ↦ rw (e, k, l, m) tt
            ]
          ]
        ]
      ]

  pub parse_all-NamesShown :
      (id_from_str : Text → Option ℕ) (raw : List RawDecision)
      → All NamesShown (parse_all id_from_str shown raw)
  unfolding parse_all
  parse_all-NamesShown id_from_str [] = tt
  parse_all-NamesShown id_from_str (value ∷ raw) =
      both (parse_decision id_from_str shown value) _ (parse_decision-NamesShown id_from_str value)
        (parse_all-NamesShown id_from_str raw)
    where
      both :
          (o : Option Decision) (rest : List Decision)
          → OptionShown o
          → All NamesShown rest
          → All NamesShown (usable o rest)
      both none rest h k = unfold usable in k
      both (some d) rest h k = unfold usable in (h, k)

  abbrev pub is_unshown : Row → Bool
  is_unshown row = not (contains shown row.memory.id)

  -- The visible rows of memories that the model was not shown.
  abbrev pub unshown : Store → List Row
  unshown store = keep is_unshown (visible store)

  pub keep_hidden :
      (context : UserContext) (target : ℕ) (rows : List Row)
      → contains shown target ≡ true
      → keep is_unshown (keep (λ r. not (is_mine context target r)) rows) ≡ keep is_unshown rows
  unfolding keep is_mine has_id
  keep_hidden context target [] h = refl
  keep_hidden context target (r ∷ rows) h = elim (Bool-cases (is_mine context target r)) [
    | inl e ↦
        let same : target ≡ r.memory.id = ground arith in
        let seen : contains shown r.memory.id ≡ true =
          subst (λ x. contains shown x ≡ true) same h in
        rw (e, seen, keep_hidden context target rows h) refl
    | inr e ↦ rw (e, keep_hidden context target rows h) refl
  ]

  present_shown :
      (context : UserContext) (old : ℕ) (r : Row)
      → contains shown old ≡ true
      → is_present context old r ≡ true
      → contains shown r.memory.id ≡ true
  unfolding is_present is_mine has_id
  present_shown context old r h e =
      let same : old ≡ r.memory.id = ground arith in subst (λ x. contains shown x ≡ true) same h

  keep_superseded :
      (context : UserContext) (old new now : ℕ) (rows : List Row)
      → contains shown old ≡ true
      → keep is_unshown
          (keep is_visible (update_where (is_present context old) (mark_superseded new now) rows))
        ≡ keep is_unshown (keep is_visible rows)
  unfolding keep update_where mark_superseded
  keep_superseded context old new now [] h = refl
  keep_superseded context old new now (r ∷ rows) h =
      let rest = keep_superseded context old new now rows h in
      elim (Bool-cases (is_present context old r)) [
        | inl e ↦
            let seen = present_shown context old r h e in
            elim (Bool-cases (is_some r.deleted_at)) [
              | inl d ↦ rw (e, d, rest) refl
              | inr d ↦ rw (e, d, seen, rest) refl
            ]
        | inr e ↦ elim (Bool-cases (is_some r.deleted_at)) [
          | inl d ↦ rw (e, d, rest) refl
          | inr d ↦ rw (e, d, rest) refl
        ]
      ]

  pub supersede-unshown :
      (context : UserContext) (old new : ℕ) (actor reason : Text) (now : ℕ) (store : Store)
      → contains shown old ≡ true
      → unshown (supersede_memory context old new actor reason now store).1 ≡ unshown store
  unfolding supersede_memory change_rows
  supersede-unshown context old new actor reason now store h =
      elim (Bool-cases (count_where (is_present context old) store.rows == 0)) [
        | inl e ↦ rw e refl
        | inr e ↦ elim (Bool-cases (refers_to_row (some new) store.rows)) [
          | inl r ↦ rw (e, r) (keep_superseded context old new now store.rows h)
          | inr r ↦ rw (e, r) refl
        ]
      ]
