-- ===== src/Session/Discover/Answered.antt =====
-- When discovery stops early: the targets that have answered.
use mathlib.Core.List.{append-nil, append_assoc}
use livox_mid360_core.Prelude.{
  ◌≡◌, sym, subst, inl, inr, List, [], ◌∷◌, ◌++◌, length, replicate, Bool, Bool-cases, true, false,
  ◌||◌, ok, Safe, Safe-map, arith,
}
use livox_mid360_core.Bytes.{All}
use livox_mid360_core.Transport.{Endpoint, Datagram, same_endpoint, same_bytes, same_bytes_eq}
use livox_mid360_core.Session.Types.{DiscoveredDevice}
use livox_mid360_core.Session.Acks.{parse_discovered_device}
use livox_mid360_core.Session.Request.Answers.{Any, Any-append_left, Any-append_right, Safe-cases}
use livox_mid360_core.Session.Discover.{
  DiscoveryOptions, Findings, mark_answered, take_device, take_datagrams, all_true,
}
use livox_mid360_core.Session.Discover.Found.{parse_discovered_device-Safe}

-- A datagram that announces a device and comes from the address of the target.
abbrev pub IsFrom : Endpoint → Datagram → Type 0
IsFrom t d =
    (dev : DiscoveredDevice) × (parse_discovered_device d.bytes d.from ≡ ok dev)
    × (t.ip ≡ d.from.ip)

-- One of the datagrams does.
abbrev pub HasAnswered : List Datagram → Endpoint → Type 0
HasAnswered ds t = Any (IsFrom t) ds

-- The targets that are marked have answered.
abbrev pub Marked : List Datagram → List Endpoint → List Bool → Type 0
Marked ds [] bs = Unit {0}
Marked ds (t ∷ ts) [] = ⊥
Marked ds (t ∷ ts) (b ∷ bs) = (b ≡ true → HasAnswered ds t) × Marked ds ts bs

pub replicate-Marked : (ts : List Endpoint) → Marked [] ts (replicate (length ts) false)
replicate-Marked [] = tt
replicate-Marked (t ∷ ts) = (λ h. cc, replicate-Marked ts)

pub Marked-all_true :
    (ds : List Datagram) (ts : List Endpoint) (bs : List Bool)
    → Marked ds ts bs
    → all_true bs ≡ true
    → All (HasAnswered ds) ts
Marked-all_true ds [] bs m h = tt
Marked-all_true ds (t ∷ ts) [] m h = elim m [ ]
Marked-all_true ds (t ∷ ts) (b ∷ bs) (m, ms) h =
    (m (ground (arith, h)), Marked-all_true ds ts bs ms (ground (arith, h)))

-- One datagram more, which announces nothing or marks its targets.
Marked-later :
    (ds : List Datagram) (d : Datagram) (ts : List Endpoint) (bs : List Bool)
    → Marked ds ts bs
    → Marked (ds ++ (d ∷ [])) ts bs
Marked-later ds d [] bs m = tt
Marked-later ds d (t ∷ ts) [] m = elim m [ ]
Marked-later ds d (t ∷ ts) (b ∷ bs) (m, ms) =
    (λ h. Any-append_left (IsFrom t) ds (d ∷ []) (m h), Marked-later ds d ts bs ms)

marks_ip :
    (t from : Endpoint)
    → (same_endpoint t from || same_bytes t.ip from.ip) ≡ true
    → same_bytes t.ip from.ip ≡ true
unfolding same_endpoint
marks_ip t from h = ground (arith, h)

mark_answered-Marked :
    (ds : List Datagram) (d : Datagram) (dev : DiscoveredDevice) (ts : List Endpoint)
    (bs : List Bool)
    → parse_discovered_device d.bytes d.from ≡ ok dev
    → Marked ds ts bs
    → Marked (ds ++ (d ∷ [])) ts (mark_answered ts d.from bs)
unfolding mark_answered
mark_answered-Marked ds d dev [] bs e m = tt
mark_answered-Marked ds d dev (t ∷ ts) [] e m = elim m [ ]
mark_answered-Marked ds d dev (t ∷ ts) (b ∷ bs) e (m, ms) = (
  λ h. elim (Bool-cases b) [
    | inl before ↦ Any-append_left (IsFrom t) ds (d ∷ []) (m before)
    | inr now ↦
        Any-append_right (IsFrom t) ds (d ∷ [])
          (inl (dev, e, same_bytes_eq t.ip d.from.ip (marked_now now h)))
  ],
  mark_answered-Marked ds d dev ts bs e ms,
)
  where
    marked_now :
        b ≡ false
        → (b || (same_endpoint t d.from || same_bytes t.ip d.from.ip)) ≡ true
        → same_bytes t.ip d.from.ip ≡ true
    marked_now new h = marks_ip t d.from (ground (arith, new, h))

pub take_datagrams-Marked :
    (options : DiscoveryOptions) (ds seen : List Datagram) (f : Findings)
    → Marked seen options.targets f.answered
    → Safe (λ f'. Marked (seen ++ ds) options.targets f'.answered) (take_datagrams options ds f)
unfolding take_datagrams take_device
take_datagrams-Marked options [] seen f m =
    subst (λ ds. Marked ds options.targets f.answered) (sym (append-nil seen)) m
take_datagrams-Marked options (d ∷ ds) seen f m =
    let further : (g : Findings)
        → Marked (seen ++ (d ∷ [])) options.targets g.answered
        → Safe (λ f'. Marked (seen ++ (d ∷ ds)) options.targets f'.answered)
            (take_datagrams options ds g) =
      λ g k.
        Safe-map _ _ (take_datagrams options ds g)
          (λ f' k'.
            subst (λ ds. Marked ds options.targets f'.answered) (append_assoc seen (d ∷ []) ds) k')
          (take_datagrams-Marked options ds (seen ++ (d ∷ [])) g k) in
    elim (Safe-cases (parse_discovered_device d.bytes d.from)
      (parse_discovered_device-Safe d.bytes d.from)) [
        | inr (x, e) ↦
            rw (take_datagrams, e) (further f (Marked-later seen d options.targets f.answered m))
        | inl (dev, e, p) ↦
            rw (take_datagrams, e)
              (further (take_device options d.from dev f)
                (mark_answered-Marked seen d dev options.targets f.answered e m))
      ]
