-- ===== src/Templog/Store/Accs.antt =====
-- The accumulators of `rebuild` of tools/templog-bridge/store.ts after the lines of one batch.
use mathlib.Core.Path.{subst}
use semantos_edge.Base.{
  ℕ, ◌≡◌, refl, sym, ap, ◌∙◌, Option, none, some, List, [], ◌∷◌, map, arith, Option-cases, inl, inr,
  All, Bool-cases,
}
use semantos_edge.Base.Map.{Str, str_eq, get, put, put_same, All-get, All-put}
use semantos_edge.Templog.Batch.{DecodedBatch, IsWire}
use semantos_edge.Templog.Store.Records.{LogState}
use semantos_edge.Templog.Store.Plan.{plan_batch, log_id_hex, key_of}
use semantos_edge.Templog.Store.Rebuild.{
  ReadKind, Acc, Accs, acc_step, acc_or, new_acc, finish, finish_all,
}
use semantos_edge.Templog.Store.Advance.{after}
use semantos_edge.Templog.Store.Reading.{kind_of, add_kinds, acc_steps, add_kinds-cons}
use semantos_edge.Templog.Store.Finish.{
  Tracks, Tracks-finish, finish-Tracks, Tracks-first, Tracks-next, acc_steps_batch,
}
use semantos_edge.Templog.Store.PlanLines.{batch_kinds, kinds_first, kinds_next}

abbrev pub IsStarted : Acc → Type 0
IsStarted a = (n : ℕ) × (a.start_seq ≡ some n)

abbrev pub AllStarted : Accs → Type 0
AllStarted accs = All (λ (e : Str × Acc). IsStarted e.1) accs

finish_all-put :
    (k : Str) (a : Acc) (accs : Accs)
    → finish_all (put k a accs) ≡ put k (finish a) (finish_all accs)
unfolding finish_all put
finish_all-put k a [] = refl
finish_all-put k a ((j, b) ∷ r) = elim (Bool-cases (str_eq j k)) [
  | inl e ↦ rw (e, finish_all) refl
  | inr e ↦ rw (e, finish_all) (ap (λ t. (j, finish b) ∷ t) (finish_all-put k a r))
]

get-finish_all-none : (k : Str) (accs : Accs) → get k accs ≡ none → get k (finish_all accs) ≡ none
unfolding finish_all get
get-finish_all-none k [] h = refl
get-finish_all-none k ((j, b) ∷ r) h = ground (arith, get-finish_all-none k r)

get-finish_all-some :
    (k : Str) (a : Acc) (accs : Accs)
    → get k accs ≡ some a
    → get k (finish_all accs) ≡ some (finish a)
unfolding finish_all get
get-finish_all-some k a [] h = cc
get-finish_all-some k a ((j, b) ∷ r) h = ground (arith, get-finish_all-some k a r)

module _ (mac : Str) (batch : DecodedBatch) (now : ℕ) (w : IsWire batch) where
  abbrev pub hex : Str
  hex = log_id_hex batch.header.log_id

  abbrev pub key : Str
  key = key_of mac hex

  abbrev pub kinds : Option LogState → List ReadKind
  kinds prev = map kind_of (plan_batch prev mac batch now).records

  abbrev pub Advanced : Option LogState → Accs → Type 0
  Advanced prev accs =
      AllStarted (add_kinds mac hex (kinds prev) accs)
      × (finish_all (add_kinds mac hex (kinds prev) accs)
          ≡ put key (after prev mac batch now) (finish_all accs))

  advanced :
      (prev : Option LogState) (a : Acc) (accs : Accs)
      → Tracks a (after prev mac batch now)
      → AllStarted accs
      → add_kinds mac hex (kinds prev) accs ≡ put key a accs
      → Advanced prev accs
  advanced prev a accs t s e = rw e (
    All-put IsStarted key a accs s (t.started, t.start_ok),
    finish_all-put key a accs
        ∙ ap (λ x. put key x (finish_all accs)) (finish-Tracks a (after prev mac batch now) t),
  )

  add_kinds_first : (accs : Accs) → AllStarted accs → get key accs ≡ none → Advanced none accs
  add_kinds_first accs s e =
      let a : Acc = acc_step (new_acc mac hex) (ReadKind.start batch.header.first_seq) in
      advanced none _ accs (Tracks-first mac batch now w.log_id) s (
        ap (λ ks. add_kinds mac hex ks accs) (kinds_first mac batch now)
        ∙ add_kinds-cons mac hex _ (batch_kinds mac batch now none) accs
        ∙ ap (λ x. put key x accs)
            (ap
                (λ o.
                  acc_steps
                    (acc_step (acc_or (new_acc mac hex) o) (ReadKind.start batch.header.first_seq))
                    (batch_kinds mac batch now none))
                e
              ∙ acc_steps_batch a _ _))

  add_kinds_known :
      (ks : List ReadKind) (accs : Accs) (a : Acc)
      → get key accs ≡ some a
      → add_kinds mac hex ks accs ≡ put key (acc_steps a ks) accs
  add_kinds_known [] accs a e = sym (put_same key a accs e)
  add_kinds_known (k ∷ ks) accs a e =
      add_kinds-cons mac hex k ks accs
      ∙ ap (λ o. put key (acc_steps (acc_step (acc_or (new_acc mac hex) o) k) ks) accs) e

  add_kinds_next :
      (accs : Accs) (a : Acc)
      → AllStarted accs
      → get key accs ≡ some a
      → Advanced (some (finish a)) accs
  add_kinds_next accs a s e =
      let (n, started) = All-get IsStarted key a accs s e in
      let st : LogState = finish a in
      advanced (some st) _ accs (Tracks-next mac batch now a st (Tracks-finish a n started)) s (
        ap (λ ks. add_kinds mac hex ks accs) (kinds_next mac batch now st)
        ∙ add_kinds_known (batch_kinds mac batch now (some st)) accs a e
        ∙ ap (λ x. put key x accs) (acc_steps_batch a _ _))

  pub add_kinds_any :
      (prev : Option LogState) (accs : Accs)
      → AllStarted accs
      → get key (finish_all accs) ≡ prev
      → Advanced prev accs
  add_kinds_any prev accs s e = elim (Option-cases (get key accs)) [
    | inl none_yet ↦
        subst (λ p. Advanced p accs) (sym (get-finish_all-none key accs none_yet) ∙ e)
          (add_kinds_first accs s none_yet)
    | inr (a, known) ↦
        subst (λ p. Advanced p accs) (sym (get-finish_all-some key a accs known) ∙ e)
          (add_kinds_next accs a s known)
  ]
