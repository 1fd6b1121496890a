-- ===== src/X402/Bridge/Turns.antt =====
-- The runs of `X402CellBridge` (tools/x402-bridge/bridge.ts) keep their claims, their queue and their
-- order.
use semantos_edge.Base.{
  ℕ, ◌+◌, ◌≤◌, ◌≡◌, refl, sym, ap, ◌∙◌, Bool, false, Option, some, List, [], ◌∷◌, ◌++◌, arith,
  if◌then◌else◌, Bool-cases, inl, inr, Result,
}
use mathlib.Core.List.{append_assoc, map-append}
use mathlib.Core.Path.{subst}
use semantos_edge.Base.Map.{Str, str_eq, str_eq_iff, str_eq_refl}
use semantos_edge.Templog.Json.{Json, Fields}
use semantos_edge.X402.Payment.{VerifyResult}
use semantos_edge.X402.Bridge.{Settings, Bridge, Response}
use semantos_edge.X402.Bridge.Request.{
  Received, answered, threw, claimed, Claim, Job, has, delete_from, receive, payer_txid, job_of,
  enqueue, release_claim,
}
use semantos_edge.X402.Bridge.Queue.{begin, splice, release}
use semantos_edge.X402.Bridge.Steps.{
  System, Active, idle, actuating, holding, Step, refuses, throws, broadcasting, settled_before,
  sent, not_sent, begins, ends, ends_metered, releases, Reachable, start, later, join,
}
use semantos_edge.X402.Bridge.Once.{
  occurs, claim_tickets, job_tickets, active_tickets, occurs-append, has-append_one,
  has-delete_from, IsOnce, ReceivedOf, kept, kept_throwing, claiming, receive-ReceivedOf,
  begin-same, finish_plain-same, finish_metered-same,
}

answered-kept : {b t : Bridge} {r : Response} → ReceivedOf b (answered r, t) → b ≡ t
answered-kept (kept r) = refl

threw-kept : {b t : Bridge} → ReceivedOf b (threw, t) → b ≡ t
threw-kept kept_throwing = refl

claimed-new :
    {b t : Bridge} {c : Claim}
    → ReceivedOf b (claimed c, t)
    → (has c.ticket b.used ≡ false) × (record b { used = b.used ++ (c.ticket ∷ []) } ≡ t)
claimed-new (claiming c e) = (e, refl)

-- The claims of which one is taken out.
occurs-append_one :
    (t : Str) (us : List Str) (u : Str)
    → occurs t (us ++ (u ∷ [])) ≡ occurs t us + (if str_eq u t then 1 else 0)
occurs-append_one t us u = omega (arith, occurs-append t us (u ∷ []))

occurs-split :
    (t : Str) (c : Claim) (xs ys : List Claim)
    → occurs t (claim_tickets (xs ++ (c ∷ ys)))
      ≡ occurs t (claim_tickets (xs ++ ys)) + (if str_eq c.ticket t then 1 else 0)
occurs-split t c [] ys = omega arith
occurs-split t c (x ∷ xs) ys = omega (arith, occurs-split t c xs ys)

-- A count that is at most one, and 0 where the text is not used.
once-new :
    (t u : Str) (used : List Str) (n : ℕ)
    → has u used ≡ false
    → n ≤ (if has t used then 1 else 0)
    → n + (if str_eq u t then 1 else 0) ≤ (if has t (used ++ (u ∷ [])) then 1 else 0)
once-new t u used n fresh h = elim (Bool-cases (str_eq u t)) [
  | inl e ↦
      let same : u ≡ t = (str_eq_iff u t).0 e in
      let unused : has t used ≡ false = subst (λ x. has x used ≡ false) same fresh in
      ground (arith, has-append_one t u used)
  | inr e ↦ ground (arith, has-append_one t u used)
]

once-delete_from :
    (t u : Str) (used : List Str) (n : ℕ)
    → n + (if str_eq u t then 1 else 0) ≤ (if has t used then 1 else 0)
    → n ≤ (if has t (delete_from u used) then 1 else 0)
once-delete_from t u used n h = ground (arith, has-delete_from t u used)

-- The queue of jobs, with one more.
tickets-append_one :
    (us : List Str) (js : List Job) (j : Job)
    → us ++ job_tickets (js ++ (j ∷ [])) ≡ (us ++ job_tickets js) ++ (j.ticket ∷ [])
tickets-append_one us js j =
    ap (λ xs. us ++ xs) (map-append _ js (j ∷ []))
    ∙ sym (append_assoc us (job_tickets js) (j.ticket ∷ []))

module _ (s : System) (h : IsOnce s) where
  IsOnce-join_sent :
      (c : Claim) (txid : Option Str) (xs ys : List Claim)
      → s.claims ≡ xs ++ (c ∷ ys)
      → IsOnce (join c txid (record s { claims = xs ++ ys }))
  unfolding enqueue job_of
  IsOnce-join_sent c txid xs ys e = record {
    once = λ t.
        let before = h.once t in
        let split = ap (λ cs. occurs t (claim_tickets cs)) e ∙ occurs-split t c xs ys in
        let one = occurs-append_one t s.enqueued c.ticket in omega arith;
    order =
        tickets-append_one s.started s.waiting (job_of c txid)
        ∙ ap (λ us. us ++ (c.ticket ∷ [])) h.order;
    line =
        ap (λ us. us ++ (c.ticket ∷ [])) h.line
        ∙ sym (tickets-append_one (active_tickets s.active) s.waiting (job_of c txid));
  }

  IsOnce-claiming :
      (c : Claim) (b : Bridge)
      → ReceivedOf s.bridge (claimed c, b)
      → IsOnce (record s { bridge = b; claims = c ∷ s.claims })
  IsOnce-claiming c b r =
      let (fresh, e) = claimed-new r in
      rw (sym e) (record {
        once = λ t.
            let before = h.once t in
            let new = once-new t c.ticket s.bridge.used _ fresh before in omega arith;
        order = h.order;
        line = h.line;
      })

  IsOnce-not_sent :
      (xs ys : List Claim) (c : Claim)
      → s.claims ≡ xs ++ (c ∷ ys)
      → IsOnce (record s { bridge = (release_claim c s.bridge).1; claims = xs ++ ys })
  unfolding release_claim
  IsOnce-not_sent xs ys c e = record {
    once = λ t.
        let before = h.once t in
        let split = ap (λ cs. occurs t (claim_tickets cs)) e ∙ occurs-split t c xs ys in
        once-delete_from t c.ticket s.bridge.used _ (omega arith);
    order = h.order;
    line = h.line;
  }

  -- A change of the bridge that keeps its claims and its queue.
  IsOnce-same :
      (b : Bridge) (a : Active)
      → (b.used ≡ s.bridge.used) × (b.pending ≡ s.bridge.pending)
      → active_tickets a ≡ active_tickets s.active
      → IsOnce (record s { bridge = b; active = a })
  IsOnce-same b a (used, pending) e = record {
    once = λ t. rw used (h.once t);
    order = h.order;
    line = pending ∙ h.line ∙ ap (λ us. us ++ job_tickets s.waiting) (sym e);
  }

  IsOnce-begins :
      (cfg : Settings) (j : Job) (js : List Job)
      → s.active ≡ idle
      → s.waiting ≡ j ∷ js
      → IsOnce (record s {
        bridge = begin cfg j s.bridge;
        waiting = js;
        active = actuating j;
        started = s.started ++ (j.ticket ∷ []);
      })
  IsOnce-begins cfg j js idling e =
      let (used, pending) = begin-same cfg j s.bridge in
      record {
        once = λ t. rw used (h.once t);
        order =
            append_assoc s.started (j.ticket ∷ []) (job_tickets js)
            ∙ ap (λ ws. s.started ++ job_tickets ws) (sym e)
            ∙ h.order;
        line =
            pending
            ∙ h.line
            ∙ ap (λ a. active_tickets a ++ job_tickets s.waiting) idling
            ∙ ap job_tickets e;
      }

  IsOnce-releases :
      (t : Str) (held : Bool)
      → s.active ≡ holding t held
      → IsOnce (record s { bridge = release t s.bridge; active = idle })
  unfolding release splice
  IsOnce-releases t held e = record {
    once = h.once;
    order = h.order;
    line =
        ap (splice t) (h.line ∙ ap (λ a. active_tickets a ++ job_tickets s.waiting) e)
        ∙ rw (str_eq_refl t) refl;
  }

IsOnce-join_claimed :
    (s : System) (h : IsOnce s) (c : Claim) (txid : Option Str) (b : Bridge)
    → ReceivedOf s.bridge (claimed c, b)
    → IsOnce (join c txid (record s { bridge = b }))
IsOnce-join_claimed s h c txid b r =
    IsOnce-join_sent (record s { bridge = b; claims = c ∷ s.claims }) (IsOnce-claiming s h c b r) c
      txid [] s.claims refl

module _ (cfg : Settings) (parse : Str → Result Fields) (verify : Fields → ℕ → VerifyResult)
    (key : Json → Option Str → Str) where
  unanswered :
      (header : Option Str) (sats : Option Json) (prefix : Str) (b : Bridge)
      {out : Received × Bridge}
      → receive parse verify key cfg header sats prefix b ≡ out
      → ReceivedOf b out
  unanswered header sats prefix b e =
      subst (ReceivedOf b) e (receive-ReceivedOf cfg parse verify key header sats prefix b)

  Step-IsOnce : {s t : System} → Step cfg parse verify key s t → IsOnce s → IsOnce t
  Step-IsOnce {s = s} (refuses header sats prefix r b e) h =
      rw (sym (answered-kept (unanswered header sats prefix s.bridge e))) h
  Step-IsOnce {s = s} (throws header sats prefix b e) h =
      rw (sym (threw-kept (unanswered header sats prefix s.bridge e))) h
  Step-IsOnce {s = s} (broadcasting header sats prefix c b e g) h =
      IsOnce-claiming s h c b (unanswered header sats prefix s.bridge e)
  Step-IsOnce {s = s} (settled_before header sats prefix c b e g) h =
      IsOnce-join_claimed s h c (payer_txid c) b (unanswered header sats prefix s.bridge e)
  Step-IsOnce {s = s} (sent xs ys c txid e) h = IsOnce-join_sent s h c (some txid) xs ys e
  Step-IsOnce {s = s} (not_sent xs ys c e) h = IsOnce-not_sent s h xs ys c e
  Step-IsOnce {s = s} (begins j js idling e) h = IsOnce-begins s h cfg j js idling e
  Step-IsOnce {s = s} (ends j at o e m) h =
      IsOnce-same s h _ _ (finish_plain-same cfg at o j s.bridge) (sym (ap active_tickets e))
  Step-IsOnce {s = s} (ends_metered j at o e m) h =
      IsOnce-same s h _ _ (finish_metered-same at o j s.bridge) (sym (ap active_tickets e))
  Step-IsOnce {s = s} (releases t held e) h = IsOnce-releases s h t held e

  -- Whatever requests, broadcasts and activations a bridge runs, in whatever order, a payment is
  -- claimed or enqueued at most once in all and only while it is marked as used, activations begin in
  -- the order in which they were enqueued, and `pending` names the active one and those that wait, in
  -- order.
  pub Reachable-IsOnce : {s : System} → Reachable cfg parse verify key s → IsOnce s
  Reachable-IsOnce start = record { once = λ t. omega arith; order = refl; line = refl }
  Reachable-IsOnce (later r step) = Step-IsOnce step (Reachable-IsOnce r)

  -- In every run of the bridge a payment starts at most one activation.
  pub started-once :
      {s : System} → Reachable cfg parse verify key s → (t : Str) → occurs t s.started ≤ 1
  started-once {s = s} r t =
      let h = Reachable-IsOnce r in
      let once = h.once t in
      let order = sym (occurs-append t s.started (job_tickets s.waiting)) ∙ ap (occurs t) h.order in
      ground arith
