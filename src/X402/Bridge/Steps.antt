-- ===== src/X402/Bridge/Steps.antt =====
-- The runs of `X402CellBridge` (tools/x402-bridge/bridge.ts): its requests, the broadcasts that they
-- wait for and the activations of its queue, in every order that their awaits leave open.
use semantos_edge.Base.{ℕ, ◌≡◌, Bool, true, false, Option, some, List, [], ◌∷◌, ◌++◌, Result}
use semantos_edge.Base.Map.{Str}
use semantos_edge.Templog.Json.{Json, Fields}
use semantos_edge.X402.Payment.{VerifyResult}
use semantos_edge.X402.Bridge.{Settings, Bridge, Response, new_bridge}
use semantos_edge.X402.Bridge.Request.{
  answered, threw, claimed, Claim, Job, receive, broadcasts, payer_txid, job_of, enqueue,
  release_claim,
}
use semantos_edge.X402.Bridge.Queue.{
  MeshOutcome, MeterOutcome, begin, finish_plain, finish_metered, holds, release,
}

-- What the head of the promise chain is doing: nothing, `actuate`, or the hold behind it.
pub data Active : Type 0 where
  idle : Active
  actuating : Job → Active
  holding : Str → Bool → Active

-- The bridge, the requests that wait for a broadcast, the activations that wait for their turn, and
-- the tickets that were enqueued and whose activation began, in order.
pub record System : Type 0 where
  pub bridge : Bridge
  pub claims : List Claim
  pub waiting : List Job
  pub active : Active
  pub enqueued : List Str
  pub started : List Str

abbrev pub new_system : System
new_system = record {
  bridge = new_bridge;
  claims = [];
  waiting = [];
  active = idle;
  enqueued = [];
  started = [];
}

-- A claim that is settled joins the queue.
abbrev pub join : Claim → Option Str → System → System
join c txid s = record s {
  bridge = enqueue c.ticket s.bridge;
  waiting = s.waiting ++ (job_of c txid ∷ []);
  enqueued = s.enqueued ++ (c.ticket ∷ []);
}

module _ (cfg : Settings) (parse : Str → Result Fields) (verify : Fields → ℕ → VerifyResult)
    (key : Json → Option Str → Str) where
  pub data Step (s : System) : System → Type 0 where
    refuses :
        (header : Option Str) (sats : Option Json) (prefix : Str) (r : Response) (b : Bridge)
        → receive parse verify key cfg header sats prefix s.bridge ≡ (answered r, b)
        → Step s (record s { bridge = b })
    throws :
        (header : Option Str) (sats : Option Json) (prefix : Str) (b : Bridge)
        → receive parse verify key cfg header sats prefix s.bridge ≡ (threw, b)
        → Step s (record s { bridge = b })
    broadcasting :
        (header : Option Str) (sats : Option Json) (prefix : Str) (c : Claim) (b : Bridge)
        → receive parse verify key cfg header sats prefix s.bridge ≡ (claimed c, b)
        → broadcasts cfg c ≡ true
        → Step s (record s { bridge = b; claims = c ∷ s.claims })
    settled_before :
        (header : Option Str) (sats : Option Json) (prefix : Str) (c : Claim) (b : Bridge)
        → receive parse verify key cfg header sats prefix s.bridge ≡ (claimed c, b)
        → broadcasts cfg c ≡ false
        → Step s (join c (payer_txid c) (record s { bridge = b }))
    sent :
        (xs ys : List Claim) (c : Claim) (txid : Str)
        → s.claims ≡ xs ++ (c ∷ ys)
        → Step s (join c (some txid) (record s { claims = xs ++ ys }))
    not_sent :
        (xs ys : List Claim) (c : Claim)
        → s.claims ≡ xs ++ (c ∷ ys)
        → Step s (record s { bridge = (release_claim c s.bridge).1; claims = xs ++ ys })
    begins :
        (j : Job) (js : List Job)
        → s.active ≡ idle
        → s.waiting ≡ j ∷ js
        → Step s (record s {
          bridge = begin cfg j s.bridge;
          waiting = js;
          active = actuating j;
          started = s.started ++ (j.ticket ∷ []);
        })
    ends :
        (j : Job) (at : Str) (o : MeshOutcome)
        → s.active ≡ actuating j
        → cfg.metered ≡ false
        → Step s (record s {
          bridge = (finish_plain cfg at o j s.bridge).1;
          active = holding j.ticket (holds cfg (finish_plain cfg at o j s.bridge).0);
        })
    ends_metered :
        (j : Job) (at : Str) (o : MeterOutcome)
        → s.active ≡ actuating j
        → cfg.metered ≡ true
        → Step s (record s {
          bridge = (finish_metered at o j s.bridge).1;
          active = holding j.ticket (holds cfg (finish_metered at o j s.bridge).0);
        })
    releases :
        (t : Str) (held : Bool)
        → s.active ≡ holding t held
        → Step s (record s { bridge = release t s.bridge; active = idle })

  pub data Reachable : System → Type 0 where
    start : Reachable new_system
    later : {s t : System} → Reachable s → Step s t → Reachable t
