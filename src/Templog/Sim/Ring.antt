-- ===== src/Templog/Sim/Ring.antt =====
-- What every node of tools/templog-bridge/sim.ts keeps to, whatever happens to it: its ring.
use semantos_edge.Base.{
  ℕ, ◌+◌, ◌-◌, ◌%◌, ◌≤◌, ◌<◌, ◌≡◌, ◌⊎◌, if◌then◌else◌, sym, ◌∙◌, max, true, false, not, ◌||◌,
  Option, none, some, ltb, ◌==◌, ==_iff, Bool-cases, inl, inr, arith, ok, thrown,
}
use mathlib.Core.Path.{subst}
use native.Mathlib.Nat.{mod-mod_of_dvd, dvd_of_mod-eq-zero}
use semantos_edge.Base.Int.{ℤ, pos, negsuc}
use semantos_edge.Base.Map.{Str}
use semantos_edge.Templog.Sim.Node.{
  FlashRecord, SimNode, new_node, fresh_node, or_default, append, starts_sector, erase, write_flash,
  sample, burn, reboot, apply_ack,
}

pub data Reachable : SimNode → Type 0 where
  created :
      (mac : Str) (log_id : ℕ) (start : ℤ) (capacity interval : Option ℕ) (band : Option (ℤ × ℤ))
      {n : SimNode}
      → new_node mac log_id start capacity interval band ≡ ok n
      → Reachable n
  sampled :
      (now : ℤ) (reading : Option ℤ) {n : SimNode} → Reachable n → Reachable (sample now reading n)
  burned : {n : SimNode} → Reachable n → Reachable (burn n)
  rebooted : (now : ℤ) {n : SimNode} → Reachable n → Reachable (reboot now n)
  acked :
      (through : ℕ) (host now : ℤ) {n : SimNode}
      → Reachable n
      → Reachable (apply_ack through host now n)

-- The ring: whole sectors, at least two; the seqs from the oldest up to the next, at most as many as
-- the ring has room for; records under these seqs only; an ack below the next seq.
pub record IsRing (n : SimNode) : Type 0 where
  pub sectors : n.capacity % 256 ≡ 0
  pub two : 512 ≤ n.capacity
  pub first : 1 ≤ n.oldest_seq
  pub ordered : n.oldest_seq ≤ n.next_seq
  pub room : n.next_seq ≤ n.oldest_seq + (n.capacity - 256) + (n.next_seq + 254) % 256 + 1
  pub acked : n.acked_through < n.next_seq
  pub held : (q : ℕ) (r : FlashRecord) → n.flash q ≡ some r → n.oldest_seq ≤ q
  pub written : (q : ℕ) (r : FlashRecord) → n.flash q ≡ some r → q < n.next_seq

-- A sector's place in the ring is its place in the run of all sectors.
sector_of : (m c : ℕ) → c % 256 ≡ 0 → m % c % 256 ≡ m % 256
sector_of m c h = mod-mod_of_dvd 256 m (dvd_of_mod-eq-zero _ h)

starts_sector-true :
    (c q : ℕ) → c % 256 ≡ 0 → starts_sector c q ≡ true → ((q - 1) % 256 ≡ 0) × (c - 256 < q)
unfolding starts_sector
starts_sector-true c q h e =
    let at : (q - 1) % c % 256 ≡ 0 = ground arith in
    (sym (sector_of (q - 1) c h) ∙ at, ground arith)

starts_sector-false :
    (c q : ℕ) → c % 256 ≡ 0 → (q - 1) % 256 ≡ 0 → starts_sector c q ≡ false → q ≤ c - 256
unfolding starts_sector
starts_sector-false c q h k e =
    let at : (q - 1) % c % 256 ≡ 0 = sector_of (q - 1) c h ∙ k in ground arith

absurd_none : (r : FlashRecord) → none ≡ some r → ⊥
absurd_none r h = cc h

-- What is left after the erasure lies above it.
erase-some :
    (from to : ℕ) (flash : ℕ → Option FlashRecord) (q : ℕ) (r : FlashRecord)
    → erase from to flash q ≡ some r
    → (flash q ≡ some r) × ((q < from) ⊎ (to ≤ q))
unfolding erase
erase-some from to flash q r h = ground (arith, absurd_none r)

oldest_after : (a b : ℕ) → (if ltb a b then b else a) ≡ max a b
oldest_after a b = ground arith

append-IsRing : (n : SimNode) → IsRing n → IsRing (append n)
unfolding append
append-IsRing n v = elim (Bool-cases (starts_sector n.capacity n.next_seq)) [
  | inl e ↦
      let at : ((n.next_seq - 1) % 256 ≡ 0) × (n.capacity - 256 < n.next_seq) =
        starts_sector-true n.capacity n.next_seq v.sectors e in
      let top : _ = oldest_after n.oldest_seq (n.next_seq - (n.capacity - 256)) in
      rw e (
        rw top (record {
          sectors = v.sectors;
          two = v.two;
          first = omega (arith, v.first);
          ordered = omega (arith, v.ordered);
          room = omega (arith, at.0, at.1, v.room);
          acked = omega (arith, v.acked);
          held = λ q r h.
              let left : _ = erase-some n.oldest_seq _ n.flash q r h in
              omega (arith, v.held q r left.0, left.1);
          written = λ q r h. omega (arith, v.written q r (erase-some _ _ n.flash q r h).0);
        }))
  | inr e ↦ rw e (record {
    sectors = v.sectors;
    two = v.two;
    first = v.first;
    ordered = omega (arith, v.ordered);
    room = elim (Bool-cases ((n.next_seq - 1) % 256 == 0)) [
      | inl z ↦
          omega (
            arith,
            v.first,
            starts_sector-false n.capacity n.next_seq v.sectors ((==_iff _ _).0 z) e,
          )
      | inr z ↦ ground (arith, v.room, v.first, v.ordered)
    ];
    acked = omega (arith, v.acked);
    held = v.held;
    written = λ q r h. omega (arith, v.written q r h);
  })
]

thrown_ne : {A : Type 0} {a : A} → thrown ≡ ok a → ⊥
thrown_ne h = cc h

new_node-IsRing :
    (mac : Str) (log_id : ℕ) (start : ℤ) (capacity interval : Option ℕ) (band : Option (ℤ × ℤ))
    (n : SimNode)
    → new_node mac log_id start capacity interval band ≡ ok n
    → IsRing n
unfolding new_node
new_node-IsRing mac log_id start capacity interval band n h =
    let c : ℕ = or_default capacity 512 in
    let m : SimNode =
      fresh_node mac log_id start c (or_default interval 60)
        (or_default band (negsuc 199, pos 2800)) in
    elim (Bool-cases (not (c % 256 == 0) || ltb c 512)) [
      | inl e ↦ absurd (thrown_ne (subst (λ b. (if b then thrown else ok m) ≡ ok n) e h))
      | inr e ↦
          let got : ok m ≡ ok n = subst (λ b. (if b then thrown else ok m) ≡ ok n) e h in
          let same : m ≡ n = cc got in
          subst IsRing same (record {
            sectors = ground arith;
            two = ground arith;
            first = omega arith;
            ordered = omega arith;
            room = omega arith;
            acked = omega arith;
            held = λ q r h. absurd (absurd_none r h);
            written = λ q r h. absurd (absurd_none r h);
          })
    ]

append-bounds :
    (n : SimNode)
    → n.oldest_seq ≤ n.next_seq
    → ((append n).next_seq ≡ n.next_seq + 1) × ((append n).oldest_seq ≤ n.next_seq)
unfolding append
append-bounds n h = elim (Bool-cases (starts_sector n.capacity n.next_seq)) [
  | inl e ↦ rw e (omega arith, ground arith)
  | inr e ↦ rw e (omega arith, h)
]

write_flash-some :
    (seq q : ℕ) (w r : FlashRecord) (flash : ℕ → Option FlashRecord)
    → write_flash seq w flash q ≡ some r
    → (seq ≡ q) ⊎ (flash q ≡ some r)
unfolding write_flash
write_flash-some seq q w r flash h = ground (arith, ==_iff seq q)

-- The record goes under the seq that was next.
sample-IsRing :
    (now : ℤ) (reading : Option ℤ) (n : SimNode) → IsRing n → IsRing (sample now reading n)
unfolding sample
sample-IsRing now reading n v =
    let w : IsRing (append n) = append-IsRing n v in
    let b : _ = append-bounds n v.ordered in
    let at : (q : ℕ) (r : FlashRecord)
        → (sample now reading n).flash q ≡ some r
        → (n.next_seq ≡ q) ⊎ ((append n).flash q ≡ some r) =
      λ q r h. write_flash-some n.next_seq q _ r (append n).flash h in
    record {
      sectors = w.sectors;
      two = w.two;
      first = w.first;
      ordered = w.ordered;
      room = w.room;
      acked = w.acked;
      held = λ q r h. elim (at q r h) [ inl e ↦ omega (arith, b.1) | inr g ↦ w.held q r g ];
      written = λ q r h. elim (at q r h) [ inl e ↦ omega (arith, b.0) | inr g ↦ w.written q r g ];
    }

apply_ack-IsRing :
    (through : ℕ) (host now : ℤ) (n : SimNode) → IsRing n → IsRing (apply_ack through host now n)
unfolding apply_ack
apply_ack-IsRing through host now n v = record {
  sectors = v.sectors;
  two = v.two;
  first = v.first;
  ordered = v.ordered;
  room = v.room;
  acked = omega (arith, v.first, v.ordered);
  held = v.held;
  written = v.written;
}

burn-IsRing : (n : SimNode) → IsRing n → IsRing (burn n)
unfolding burn
burn-IsRing n v = append-IsRing n v

reboot-IsRing : (now : ℤ) (n : SimNode) → IsRing n → IsRing (reboot now n)
unfolding reboot
reboot-IsRing now n v = record {
  sectors = v.sectors;
  two = v.two;
  first = v.first;
  ordered = v.ordered;
  room = v.room;
  acked = v.acked;
  held = v.held;
  written = v.written;
}

-- Whatever happens to a node, its ring holds at most its capacity, under seqs from the oldest up to
-- the next, and its ack is below the next seq.
pub Reachable-IsRing : (n : SimNode) → Reachable n → IsRing n
Reachable-IsRing n (created mac log_id start capacity interval band h) =
    new_node-IsRing mac log_id start capacity interval band n h
Reachable-IsRing _ (sampled now reading r) = sample-IsRing now reading _ (Reachable-IsRing _ r)
Reachable-IsRing _ (burned r) = burn-IsRing _ (Reachable-IsRing _ r)
Reachable-IsRing _ (rebooted now r) = reboot-IsRing now _ (Reachable-IsRing _ r)
Reachable-IsRing _ (acked through host now r) =
    apply_ack-IsRing through host now _ (Reachable-IsRing _ r)

-- Whatever happens to a node, the seqs from its oldest up to its next are no more than its ring
-- holds, every record in its flash is under one of them, and its ack is below its next seq.
pub Reachable-fits :
    (n : SimNode)
    → Reachable n
    → (n.next_seq ≤ n.oldest_seq + n.capacity)
      × (n.acked_through < n.next_seq)
      × ((q : ℕ) (r : FlashRecord) → n.flash q ≡ some r → (n.oldest_seq ≤ q) × (q < n.next_seq))
Reachable-fits n h =
    let v : IsRing n = Reachable-IsRing n h in
    (omega (arith, v.room, v.two), v.acked, λ q r f. (v.held q r f, v.written q r f))
