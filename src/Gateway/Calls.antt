-- ===== src/Gateway/Calls.antt =====
-- Calls of `suggest` that overlap: the start of a call, with its look at the breaker, and its end, with
-- what it does after the answer of the provider, are two steps, and those of other calls may come
-- between them.
use support_endpoint.Prelude.{
  ℕ, zero, suc, ◌+◌, max, String, Bool, true, false, Option, none, some, List, [], ◌∷◌, length,
}
use support_endpoint.Gateway.{
  CircuitRedis, GatewaySettings, GatewayState, GatewayCall, start_call, conclude,
}

-- A call starts, or the i-th of the calls that wait for the provider ends.
pub data GatewayEvent : Type 0 where
  starts : GatewayCall → GatewayEvent
  ends : ℕ → GatewayEvent

-- The breaker, the calls that wait for the provider, how many calls have reached it, and how many
-- have waited at once.
pub record Traffic (S : Type 0) : Type 0 where
  pub gateway : GatewayState S
  pub in_flight : List GatewayCall
  pub posts : ℕ
  pub peak : ℕ

abbrev pub keep_first :
    GatewayCall → Option (GatewayCall × List GatewayCall) → Option (GatewayCall × List GatewayCall)
keep_first x none = none
keep_first x (some (y, ys)) = some (y, x ∷ ys)

-- The i-th call, and the others.
unfoldable pub pick : ℕ → List GatewayCall → Option (GatewayCall × List GatewayCall)
pick i [] = none
pick zero (x ∷ xs) = some (x, xs)
pick (suc i) (x ∷ xs) = keep_first x (pick i xs)

module _ {S : Type 0} (redis : CircuitRedis S) (settings : GatewaySettings)
    (sub : String → String → String → String) where
  unfoldable pub admit_call : GatewayCall → Bool × GatewayState S → Traffic S → Traffic S
  admit_call x (false, g) a = record a { gateway = g }
  admit_call x (true, g) a = record {
    gateway = g;
    in_flight = x ∷ a.in_flight;
    posts = a.posts + 1;
    peak = max a.peak (length a.in_flight + 1);
  }

  unfoldable pub end_call : Option (GatewayCall × List GatewayCall) → Traffic S → Traffic S
  end_call none a = a
  end_call (some (x, rest)) a = record a {
    gateway = (conclude redis settings sub x x.answer a.gateway).1;
    in_flight = rest;
  }

  unfoldable pub happen : GatewayEvent → Traffic S → Traffic S
  unfolding admit_call end_call pick
  happen (GatewayEvent.starts x) a = admit_call x (start_call redis settings x.started a.gateway) a
  happen (GatewayEvent.ends i) a = end_call (pick i a.in_flight) a

  unfoldable pub run : List GatewayEvent → Traffic S → Traffic S
  unfolding happen
  run [] a = a
  run (e ∷ es) a = run es (happen e a)

-- Before any call.
abbrev pub idle : {S : Type 0} → GatewayState S → Traffic S
idle g = record { gateway = g; in_flight = []; posts = 0; peak = 0 }
