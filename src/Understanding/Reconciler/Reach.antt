-- ===== src/Understanding/Reconciler/Reach.antt =====
-- A model's decisions reach only the memories that it was shown.
use recuerdos_ai.Prelude.{
  ℕ, ◌≤◌, ◌≡◌, refl, sym, ap, ◌∙◌, inl, inr, Option, none, some, List, [], ◌∷◌, ◌++◌, arith, keep,
  keep-append, any_where, contains, nat_eq, Bool-cases, All, length,
}
use mathlib.Core.List.{append-nil}
use recuerdos_ai.Text.{Text}
use recuerdos_ai.Shared.Error.{Result, ok, err}
use recuerdos_ai.Identity.UserContext.{UserContext}
use recuerdos_ai.Memories.Memory.{Memory}
use recuerdos_ai.Memories.Repository.{Store, Row, supersede_memory}
use recuerdos_ai.Memories.Services.{World, Setting, save, forget}
use recuerdos_ai.Memories.Services.Rows.{visible, row_of}
use recuerdos_ai.Memories.Services.Saving.{Saved, save_lem}
use recuerdos_ai.Memories.Services.Forgetting.{Forgotten, forget_lem}
use recuerdos_ai.Understanding.Reconciler.{
  Decision, add, noop, update, delete, RawDecision, Candidate, ReconcileOutcome, Applied,
  nothing_done, parse_all, stores_the_candidate, new_memory, delete_one, delete_all, supersede_one,
  supersede_all, after_store, store_candidate, apply_decisions, apply,
}
use recuerdos_ai.Understanding.Reconciler.Shown.{
  NamesShown, is_unshown, unshown, parse_all-NamesShown, keep_hidden, supersede-unshown,
}

module _ {E V X : Type 0} (shown : List ℕ) (setting : Setting E V X) (context : UserContext)
    (actor : Text) (now : ℕ) where
  delete_all-unshown :
      (decisions : List Decision) (outcome : ReconcileOutcome) (w : World V X)
      → All (NamesShown shown) decisions
      → unshown shown (delete_all setting context actor now decisions outcome w).1.store
        ≡ unshown shown w.store
  unfolding delete_all
  delete_all-unshown [] outcome w h = refl
  delete_all-unshown (add reason ∷ decisions) outcome w h =
      delete_all-unshown decisions outcome w h.1
  delete_all-unshown (noop reason ∷ decisions) outcome w h =
      delete_all-unshown decisions outcome w h.1
  delete_all-unshown (update old reason ∷ decisions) outcome w h =
      delete_all-unshown decisions outcome w h.1
  delete_all-unshown (delete target reason ∷ decisions) outcome w h =
      one (forget setting context actor now target reason w)
        (forget_lem setting context actor now target reason w).0
        (λ w'.
          delete_all-unshown decisions (record outcome { deleted = outcome.deleted ++ target ∷ [] })
            w' h.1)
    where
      one :
          (r : Result (Unit {0}) × World V X)
          → Forgotten setting context actor now target w r
          → ((w' : World V X)
              → unshown shown
                  (delete_all setting context actor now decisions
                    (record outcome { deleted = outcome.deleted ++ target ∷ [] })
                    w').1.store
                ≡ unshown shown w'.store)
          → unshown shown
              (delete_one setting context actor now target r (
                delete_all setting context actor now decisions
                  (record outcome { deleted = outcome.deleted ++ target ∷ [] }))).1.store
            ≡ unshown shown w.store
      one (err e, w') gone rest =
          unfold delete_one in ap (λ (x : World V X). unshown shown x.store) gone
      one (ok _, w') gone rest =
          unfold delete_one in
          rest w'
          ∙ ap (keep (is_unshown shown)) gone.0
          ∙ keep_hidden shown context target (visible w.store) h.0

  supersede_all-unshown :
      (id : ℕ) (decisions : List Decision) (outcome : ReconcileOutcome) (w : World V X)
      → All (NamesShown shown) decisions
      → unshown shown (supersede_all setting context actor now id decisions outcome w).1.store
        ≡ unshown shown w.store
  unfolding supersede_all
  supersede_all-unshown id [] outcome w h = refl
  supersede_all-unshown id (add reason ∷ decisions) outcome w h =
      supersede_all-unshown id decisions outcome w h.1
  supersede_all-unshown id (noop reason ∷ decisions) outcome w h =
      supersede_all-unshown id decisions outcome w h.1
  supersede_all-unshown id (delete target reason ∷ decisions) outcome w h =
      supersede_all-unshown id decisions outcome w h.1
  supersede_all-unshown id (update old reason ∷ decisions) outcome w h =
      one (supersede_memory context old id actor reason now w.store)
        (supersede-unshown shown context old id actor reason now w.store h.0)
        (λ w'.
          supersede_all-unshown id decisions
            (record outcome { superseded = outcome.superseded ++ old ∷ [] }) w' h.1)
    where
      one :
          (r : Result (Unit {0}) × Store)
          → unshown shown r.1 ≡ unshown shown w.store
          → ((w' : World V X)
              → unshown shown
                  (supersede_all setting context actor now id decisions
                    (record outcome { superseded = outcome.superseded ++ old ∷ [] })
                    w').1.store
                ≡ unshown shown w'.store)
          → unshown shown
              (supersede_one setting context actor now w r (
                supersede_all setting context actor now id decisions
                  (record outcome { superseded = outcome.superseded ++ old ∷ [] }))).1.store
            ≡ unshown shown w.store
      one (err e, store) same rest = unfold supersede_one in same
      one (ok _, store) same rest = unfold supersede_one in rest (record w { store = store }) ∙ same

  -- The visible rows of memories that were not shown, before and after: at most one is new.
  abbrev pub AtMostOneMore : Store → Store → Type 0
  AtMostOneMore before after =
      (extra : List Row) × (length extra ≤ 1)
      × (unshown shown after ≡ unshown shown before ++ extra)

  same-AtMostOneMore :
      (before after : Store)
      → unshown shown after ≡ unshown shown before
      → AtMostOneMore before after
  same-AtMostOneMore before after e = ([], omega arith, e ∙ sym (append-nil _))

  keep_one_le : (r : Row) → length (keep (is_unshown shown) (r ∷ [])) ≤ 1
  unfolding keep
  keep_one_le r = elim (Bool-cases (contains shown r.memory.id)) [
    | inl e ↦ rw e (omega arith)
    | inr e ↦ rw e (omega arith)
  ]

  after_store-AtMostOneMore :
      (decisions : List Decision) (outcome : ReconcileOutcome) (w : World V X)
      (r : Result Memory × World V X)
      → All (NamesShown shown) decisions
      → Saved setting context actor now w r
      → AtMostOneMore w.store (after_store setting context actor now decisions outcome r).1.store
  unfolding after_store
  after_store-AtMostOneMore decisions outcome w (err e, w') named saved = elim saved.1 [
    | inl same ↦ same-AtMostOneMore w.store w'.store (ap (keep (is_unshown shown)) same)
    | inr (m, stranded) ↦ (
      keep (is_unshown shown) (row_of m ∷ []),
      keep_one_le (row_of m),
      ap (keep (is_unshown shown)) stranded.3
          ∙ keep-append (is_unshown shown) (visible w.store) (row_of m ∷ []),
    )
  ]
  after_store-AtMostOneMore decisions outcome w (ok m, w') named saved = (
    keep (is_unshown shown) (row_of m ∷ []),
    keep_one_le (row_of m),
    supersede_all-unshown m.id decisions (record outcome { stored = outcome.stored ++ m.id ∷ [] })
          w' named
        ∙ ap (keep (is_unshown shown)) saved.0
        ∙ keep-append (is_unshown shown) (visible w.store) (row_of m ∷ []),
  )

  store_candidate-AtMostOneMore :
      (id : ℕ) (candidate : Candidate) (decisions : List Decision)
      (r : Applied setting context actor now)
      → All (NamesShown shown) decisions
      → AtMostOneMore r.1.store
          (store_candidate setting context actor now id candidate decisions r).1.store
  unfolding store_candidate
  store_candidate-AtMostOneMore id candidate decisions (err e, w) named =
      same-AtMostOneMore w.store w.store refl
  store_candidate-AtMostOneMore id candidate decisions (ok outcome, w) named =
      elim (Bool-cases (any_where stores_the_candidate decisions)) [
        | inl e ↦ rw e (
            after_store-AtMostOneMore decisions outcome w
              (save setting context actor now id (new_memory candidate actor) w) named
              (save_lem setting context actor now id (new_memory candidate actor) w))
        | inr e ↦ rw e (same-AtMostOneMore w.store w.store refl)
      ]

  apply_decisions-AtMostOneMore :
      (id : ℕ) (candidate : Candidate) (decisions : List Decision) (w : World V X)
      → All (NamesShown shown) decisions
      → AtMostOneMore w.store
          (apply_decisions setting context actor now id candidate decisions w).1.store
  unfolding apply_decisions
  apply_decisions-AtMostOneMore id candidate decisions w named =
      let (extra, few, e) =
        store_candidate-AtMostOneMore id candidate decisions
          (delete_all setting context actor now decisions nothing_done w) named in
      (
        extra,
        few,
        e ∙ ap (λ rows. rows ++ extra) (delete_all-unshown decisions nothing_done w named),
      )

  -- Whatever a model answers, and at whichever step an error ends its application: the visible rows of
  -- all memories that it was not shown, those of other users included, are as they were and in their
  -- order, but for at most one new row after them.
  pub apply-AtMostOneMore :
      (id_from_str : Text → Option ℕ) (id : ℕ) (candidate : Candidate)
      (answer : Option (List RawDecision)) (w : World V X)
      → AtMostOneMore w.store
          (apply setting context actor now id_from_str shown id candidate answer w).1.store
  unfolding apply
  apply-AtMostOneMore id_from_str id candidate none w =
      after_store-AtMostOneMore [] nothing_done w
        (save setting context actor now id (new_memory candidate actor) w) tt
        (save_lem setting context actor now id (new_memory candidate actor) w)
  apply-AtMostOneMore id_from_str id candidate (some raw) w =
      apply_decisions-AtMostOneMore id candidate (parse_all id_from_str shown raw) w
        (parse_all-NamesShown shown id_from_str raw)
