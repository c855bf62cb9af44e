-- ===== src/Server/Hub/Relay.antt =====
-- server/src/hub.rs: `Hub::relay_route`, with its token bucket.
use remote_x.Prelude.{ℕ, ◌-◌, not, Option, none, some, if◌then◌else◌}
use remote_x.Prelude.Eq.{◌==◌, nat_eq}
use remote_x.Float.{Float}
use remote_x.Common.Text.{Text, text_eq}
use remote_x.Map
use remote_x.Server.State.{
  Mode, pending, relayed, direct, Session, Bucket, Hub, fetch_add, mode_beq,
}
use remote_x.Server.Hub.{with_inner}
use remote_x.Server.Hub.Connect.{relay_rate}

pub record RelayRoute : Type 0 where
  pub tx : ℕ
  pub delay : ℕ

-- The first relayed frame settles a pending session on the relay.
abbrev pub settle : Mode → Mode
settle pending = relayed
settle relayed = relayed
settle direct = direct

module _ {F : Type 0} where
  -- The other participant, if `from` is one.
  unfoldable pub peer_of : Session F → Text → Option Text
  peer_of s from =
      if s.viewer == from then some s.host else if s.host == from then some s.viewer else none

module _ (fl : Float) where
  open fl use {F, lit, add, sub, mul, div, neg, fmin, lt, of_ℕ, as_secs, from_secs}

  unfoldable pub refill : F → ℕ → ℕ → Bucket F → Bucket F
  refill rate now len b = record {
    tokens =
        sub (fmin (add b.tokens (mul (as_secs (now - b.last)) rate)) (mul rate (lit 25 2)))
          (of_ℕ len);
    last = now;
  }

  unfoldable pub delay_of : F → F → ℕ
  delay_of rate tokens = if lt tokens (lit 0 0) then from_secs (div (neg tokens) rate) else 0

  unfoldable pub relay_to : ℕ → ℕ → ℕ → Text → Session F → Hub F → Option RelayRoute × Hub F
  relay_to session len now peer s h =
      let mode = settle s.mode in
      let bucket = refill (relay_rate fl h) now len s.bucket in
      let s' =
        if mode_beq mode relayed
        then record s {
          mode = mode;
          last_activity = now;
          bytes = fetch_add s.bytes len;
          bucket = bucket;
        }
        else record s { mode = mode } in
      let h' = with_inner h (record h.inner { sessions = Map.insert session s' h.sessions }) in
      if not (mode_beq mode relayed) then (none, h') else (
        elim (Map.lookup peer h.devices) [
          | none ↦ none
          | some c ↦ some (record { tx = c.tx; delay = delay_of (relay_rate fl h) bucket.tokens })
        ],
        record h' {
          metrics = record h.metrics { relay_bytes = fetch_add h.metrics.relay_bytes len };
        },
      )

  unfoldable pub relay_route : ℕ → Text → ℕ → ℕ → Hub F → Option RelayRoute × Hub F
  unfolding relay_to delay_of
  relay_route session from len now h = elim (Map.lookup session h.sessions) [
    | none ↦ (none, h)
    | some s ↦ elim (peer_of s from) [
      | none ↦ (none, h)
      | some peer ↦ relay_to session len now peer s h
    ]
  ]
