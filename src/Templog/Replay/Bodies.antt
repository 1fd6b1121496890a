-- ===== src/Templog/Replay/Bodies.antt =====
-- The bodies of a log (tools/templog-bridge/replay.ts).
use mathlib.Core.List.{Perm}
use mathlib.Core.List.Perm
use semantos_edge.Base.{
  ℕ, zero, suc, ◌≤◌, ◌<◌, ◌≡◌, refl, ap, ◌∙◌, inl, inr, List, [], ◌∷◌, ◌++◌, map, All, leb,
  Bool-cases, length, take, drop, arith,
}
use semantos_edge.Templog.Bridge.Line.{PostSample, PostBody}
use semantos_edge.Templog.Replay.{
  ReplayLog, insert_by_seq, sort_by_seq, slices, body_of, samples_of, bodies_of,
}

-- The samples of bodies, one behind the other.
abbrev pub joined : List (List PostSample) → List PostSample
joined [] = []
joined (c ∷ cs) = c ++ joined cs

abbrev pub posted : List PostBody → List PostSample
posted [] = []
posted (b ∷ bs) = b.samples ++ posted bs

take-drop : (n : ℕ) (xs : List PostSample) → take n xs ++ drop n xs ≡ xs
take-drop zero xs = refl
take-drop (suc n) [] = refl
take-drop (suc n) (x ∷ xs) = ap (λ t. x ∷ t) (take-drop n xs)

length-take_le : (n : ℕ) (xs : List PostSample) → length (take n xs) ≤ n
length-take_le zero xs = omega arith
length-take_le (suc n) [] = omega arith
length-take_le (suc n) (x ∷ xs) = omega (arith, length-take_le n xs)

length-drop_le : (n : ℕ) (xs : List PostSample) → length (drop n xs) ≤ length xs
length-drop_le zero xs = omega arith
length-drop_le (suc n) [] = omega arith
length-drop_le (suc n) (x ∷ xs) = omega (arith, length-drop_le n xs)

-- Enough fuel leaves no sample behind.
joined-slices :
    (n size : ℕ) (samples : List PostSample)
    → 0 < size
    → length samples ≤ n
    → joined (slices n size samples) ≡ samples
unfolding slices
joined-slices zero size [] p h = refl
joined-slices zero size (s ∷ ss) p h = absurd (omega arith)
joined-slices (suc n) size [] p h = refl
joined-slices (suc n) zero (s ∷ ss) p h = absurd (omega arith)
joined-slices (suc n) (suc k) (s ∷ ss) p h =
    let fewer = length-drop_le k ss in
    ap (λ t. s ∷ take k ss ++ t) (joined-slices n (suc k) (drop k ss) p (omega arith))
    ∙ ap (λ t. s ∷ t) (take-drop k ss)

slices-bounded :
    (n size : ℕ) (samples : List PostSample)
    → 0 < size
    → All (λ c. (0 < length c) × (length c ≤ size)) (slices n size samples)
unfolding slices
slices-bounded zero size samples p = tt
slices-bounded (suc n) size [] p = tt
slices-bounded (suc n) zero (s ∷ ss) p = absurd (omega arith)
slices-bounded (suc n) (suc k) (s ∷ ss) p =
    let few = length-take_le k ss in
    ((omega arith, omega arith), slices-bounded n (suc k) (drop k ss) p)

posted-map : (l : ReplayLog) (cs : List (List PostSample)) → posted (map (body_of l) cs) ≡ joined cs
posted-map l [] = refl
posted-map l (c ∷ cs) = ap (λ t. c ++ t) (posted-map l cs)

-- The body is one of the log, with 1 to `size` samples.
abbrev pub IsBody : ℕ → ReplayLog → PostBody → Type 0
IsBody size l b = (b ≡ body_of l b.samples) × (0 < length b.samples) × (length b.samples ≤ size)

IsBody-map :
    (size : ℕ) (l : ReplayLog) (cs : List (List PostSample))
    → All (λ c. (0 < length c) × (length c ≤ size)) cs
    → All (IsBody size l) (map (body_of l) cs)
IsBody-map size l [] h = tt
IsBody-map size l (c ∷ cs) (h, hs) = ((refl, h.0, h.1), IsBody-map size l cs hs)

abbrev pub IsSorted : List PostSample → Type 0
IsSorted [] = Unit
IsSorted (s ∷ ss) = All (λ (t : PostSample). s.seq ≤ t.seq) ss × IsSorted ss

All-insert_by_seq :
    (P : PostSample → Type 0) (s : PostSample) (ss : List PostSample)
    → P s
    → All P ss
    → All P (insert_by_seq s ss)
unfolding insert_by_seq
All-insert_by_seq P s [] p h = (p, tt)
All-insert_by_seq P s (t ∷ ts) p (q, h) = elim (Bool-cases (leb s.seq t.seq)) [
  | inl e ↦ rw (e, insert_by_seq) (p, (q, h))
  | inr e ↦ rw (e, insert_by_seq) (q, All-insert_by_seq P s ts p h)
]

All-le :
    (a b : ℕ) (ss : List PostSample)
    → a ≤ b
    → All (λ (t : PostSample). b ≤ t.seq) ss
    → All (λ (t : PostSample). a ≤ t.seq) ss
All-le a b [] h k = tt
All-le a b (s ∷ ss) h (k, ks) = (omega arith, All-le a b ss h ks)

IsSorted-insert_by_seq :
    (s : PostSample) (ss : List PostSample) → IsSorted ss → IsSorted (insert_by_seq s ss)
unfolding insert_by_seq
IsSorted-insert_by_seq s [] h = (tt, tt)
IsSorted-insert_by_seq s (t ∷ ts) (least, h) = elim (Bool-cases (leb s.seq t.seq)) [
  | inl e ↦
      let before : s.seq ≤ t.seq = ground arith in
      rw (e, insert_by_seq) ((before, All-le s.seq t.seq ts before least), (least, h))
  | inr e ↦
      let behind : t.seq ≤ s.seq = ground arith in
      rw (e, insert_by_seq) (All-insert_by_seq _ s ts behind least, IsSorted-insert_by_seq s ts h)
]

IsSorted-sort_by_seq : (ss : List PostSample) → IsSorted (sort_by_seq ss)
unfolding sort_by_seq
IsSorted-sort_by_seq [] = tt
IsSorted-sort_by_seq (s ∷ ss) = IsSorted-insert_by_seq s (sort_by_seq ss) (IsSorted-sort_by_seq ss)

Perm-insert_by_seq : (s : PostSample) (ss : List PostSample) → Perm (insert_by_seq s ss) (s ∷ ss)
unfolding insert_by_seq
Perm-insert_by_seq s [] = (Perm.refl _)
Perm-insert_by_seq s (t ∷ ts) = elim (Bool-cases (leb s.seq t.seq)) [
  | inl e ↦ rw (e, insert_by_seq) (Perm.refl _)
  | inr e ↦
      rw (e, insert_by_seq) (Perm.trans (Perm.cons t (Perm-insert_by_seq s ts)) (Perm.swap s t ts))
]

Perm-sort_by_seq : (ss : List PostSample) → Perm (sort_by_seq ss) ss
unfolding sort_by_seq
Perm-sort_by_seq [] = (Perm.refl _)
Perm-sort_by_seq (s ∷ ss) =
    Perm.trans (Perm-insert_by_seq s (sort_by_seq ss)) (Perm.cons s (Perm-sort_by_seq ss))

-- For a size above 0 a round for each sample is enough: the bodies of a log carry the samples of the
-- log, each once, in the order of their seqs, and each body names the log and its losses, and has
-- at least one sample and at most as many as the size.
pub bodies_of-posted :
    (size : ℕ) (l : ReplayLog)
    → 0 < size
    → Perm (posted (bodies_of size l)) (map (λ (e : ℕ × PostSample). e.1) l.by_seq)
      × IsSorted (posted (bodies_of size l))
      × All (IsBody size l) (bodies_of size l)
unfolding bodies_of samples_of
bodies_of-posted size l p =
    let samples = samples_of l in
    let all : posted (bodies_of size l) ≡ samples =
      posted-map l (slices (length samples) size samples)
      ∙ joined-slices (length samples) size samples p (omega arith) in
    (
      rw all (Perm-sort_by_seq _),
      rw all (IsSorted-sort_by_seq _),
      IsBody-map size l _ (slices-bounded (length samples) size samples p),
    )
