-- ===== src/Session/Discover/Outcome.antt =====
-- What discovery returns, over all its rounds.
use mathlib.Core.List.{append-nil, append_assoc}
use livox_mid360_core.Prelude.{
  ℕ, suc, ◌≡◌, refl, sym, ap, subst, ◌⊎◌, inl, inr, List, [], ◌∷◌, ◌++◌, length, take, replicate,
  Bool-cases, true, false, if◌then◌else◌, Option, Option-cases, Safe, Safe-map, arith,
}
use livox_mid360_core.Protocol.CommandFrame.{is_empty}
use livox_mid360_core.Protocol.CommandFrame.Encode.{build_command_frame_lem}
use livox_mid360_core.Protocol.Types.{cmd_discovery}
use livox_mid360_core.Bytes.{All}
use livox_mid360_core.Transport.{TransportError, Endpoint, Datagram, broadcast}
use livox_mid360_core.Session.Discover.Answered.{
  HasAnswered, Marked, Marked-all_true, replicate-Marked, take_datagrams-Marked,
}
use livox_mid360_core.Session.Types.{DiscoveredDevice}
use livox_mid360_core.Session.Request.{request_spec}
use livox_mid360_core.Session.Request.Answers.{Safe-cases}
use livox_mid360_core.Session.Connect.{Opening}
use livox_mid360_core.Session.Discover.{
  DiscoveryOptions, Round, stop_requested, round_failed, received, Findings, take_datagrams,
  collect, all_answered, ask_and_collect, discover, discovery_port, targets_of, send_all,
}
use livox_mid360_core.Session.Discover.Found.{
  AreDistinct, AreWanted, AreCovered, IsFound, IsFound-then, IsFound-none, announced, received_in,
  take_datagrams-IsFound,
}

module _ (options : DiscoveryOptions) where
  -- The wanted devices that the rounds announce.
  abbrev pub announced_in : List Round → List DiscoveredDevice
  announced_in [] = []
  announced_in (received ds ∷ rounds) = announced options ds ++ announced_in rounds
  announced_in (_ ∷ rounds) = announced_in rounds

  -- The first `n` rounds are those that were used, after the datagrams `seen`: all of them, unless
  -- targets were given and each one has answered by then.
  abbrev UsedAfter : List Datagram → List Round → ℕ → Type 0
  UsedAfter seen rounds n =
      (n ≡ length rounds)
      ⊎ ((is_empty options.targets ≡ false)
          × All (HasAnswered (seen ++ received_in (take n rounds))) options.targets)

  abbrev pub IsUsed : List Round → ℕ → Type 0
  IsUsed = UsedAfter []

  one_more :
      (seen ds : List Datagram) (rounds : List Round) (n : ℕ)
      → UsedAfter (seen ++ ds) rounds n
      → UsedAfter seen (received ds ∷ rounds) (suc n)
  one_more seen ds rounds n (inl whole) = inl (ap suc whole)
  one_more seen ds rounds n (inr (given, all)) = inr (
    given,
    subst (λ es. All (HasAnswered es) options.targets)
        (append_assoc seen ds (received_in (take n rounds))) all,
  )

  last_one :
      (seen ds : List Datagram) (rounds : List Round) (f : Findings)
      → Marked (seen ++ ds) options.targets f.answered
      → all_answered options f ≡ true
      → UsedAfter seen (received ds ∷ rounds) 1
  last_one seen ds rounds f m all = inr (
    ground (arith, all),
    subst (λ es. All (HasAnswered (seen ++ es)) options.targets) (sym (append-nil ds))
        (Marked-all_true (seen ++ ds) options.targets f.answered m (ground (arith, all))),
  )

  collect-IsFound :
      (rounds : List Round) (seen : List Datagram) (f : Findings)
      → AreDistinct f.found
      → AreWanted options f.found
      → Marked seen options.targets f.answered
      → Safe
          (λ f'.
            (n : ℕ) × UsedAfter seen rounds n
            × IsFound options f.found (announced_in (take n rounds)) f'.found)
          (collect options rounds f)
  unfolding collect
  collect-IsFound [] seen f h w m = (0, inl refl, IsFound-none options f.found h w)
  collect-IsFound (stop_requested ∷ rounds) seen f h w m = tt
  collect-IsFound (round_failed e ∷ rounds) seen f h w m = tt
  collect-IsFound (received ds ∷ rounds) seen f h w m =
      elim (Safe-cases (take_datagrams options ds f) (take_datagrams-IsFound options ds f h w)) [
        | inr (x, e) ↦ rw (collect, e) tt
        | inl (f', e, p) ↦
            let m' =
              subst (Safe (λ f'. Marked (seen ++ ds) options.targets f'.answered)) e
                (take_datagrams-Marked options ds seen f m) in
            elim (Bool-cases (all_answered options f')) [
              | inl all ↦
                  rw (collect, e, all)
                    (
                      1,
                      last_one seen ds rounds f' m' all,
                      IsFound-then options f.found (announced options ds) f'.found [] f'.found p
                          (IsFound-none options f'.found p.distinct p.wanted),
                    )
              | inr more ↦
                  rw (collect, e, more)
                    (Safe-map _ _ (collect options rounds f')
                      (λ g (n, used, k). (
                        suc n,
                        one_more seen ds rounds n used,
                        IsFound-then options f.found (announced options ds) f'.found
                            (announced_in (take n rounds)) g.found p k,
                      ))
                      (collect-IsFound rounds (seen ++ ds) f' p.distinct p.wanted m'))
            ]
      ]

  targets-Marked : Marked [] options.targets (replicate (length (targets_of options)) false)
  targets-Marked = start options.targets
    where
      start :
          (ts : List Endpoint)
          → Marked [] ts
              (replicate (length (if is_empty ts then broadcast discovery_port ∷ [] else ts)) false)
      start [] = tt
      start (t ∷ ts) = replicate-Marked (t ∷ ts)

  -- What a list of devices that is returned promises.
  pub record IsDiscovery (rounds : List Round) (found : List DiscoveredDevice) : Type 0 where
    pub distinct : AreDistinct found
    pub wanted : AreWanted options found
    pub rounds_used : ℕ
    pub used : IsUsed rounds rounds_used
    pub complete : AreCovered options found (announced_in (take rounds_used rounds))

ask_and_collect-IsDiscovery :
    (options : DiscoveryOptions) (sends : ℕ → Option TransportError) (rounds : List Round)
    → Safe (IsDiscovery options rounds) (ask_and_collect options sends rounds)
unfolding ask_and_collect
ask_and_collect-IsDiscovery options sends rounds =
    let built = build_command_frame_lem (request_spec 1 cmd_discovery []) (omega arith) in
    let start : Findings = record {
      found = [];
      answered = replicate (length (targets_of options)) false;
    } in
    elim (Option-cases (send_all (targets_of options) sends 0)) [
      | inr (x, e) ↦ rw (ask_and_collect, built, e) tt
      | inl sent ↦
          elim (Safe-cases (collect options rounds start)
            (collect-IsFound options rounds [] start tt tt (targets-Marked options))) [
              | inr (x, e) ↦ rw (ask_and_collect, built, sent, e) tt
              | inl (f, e, (n, used, k)) ↦
                  rw (ask_and_collect, built, sent, e)
                    (record {
                      distinct = k.distinct;
                      wanted = k.wanted;
                      rounds_used = n;
                      used = used;
                      complete = k.complete;
                    })
            ]
    ]

-- Whatever is received, discovery ends without a fault. The devices that it returns have different
-- serial numbers and the type asked for, and every device of that type that a datagram announced
-- in the rounds used is among them by its serial number. These are all rounds up to the deadline, or,
-- when targets were given, those up to one by which each target has announced a device from its address.
pub discover-IsDiscovery :
    (options : DiscoveryOptions) (o : Opening) (sends : ℕ → Option TransportError)
    (rounds : List Round)
    → Safe (IsDiscovery options rounds) (discover options o sends rounds)
unfolding discover
discover-IsDiscovery options o sends rounds = elim (Option-cases o.socket_failed) [
  | inr (x, e) ↦ rw (discover, e) tt
  | inl a ↦ elim (Option-cases o.poller_failed) [
    | inr (x, e) ↦ rw (discover, a, e) tt
    | inl b ↦ elim (Option-cases o.add_failed) [
      | inr (x, e) ↦ rw (discover, a, b, e) tt
      | inl c ↦ rw (discover, a, b, c) (ask_and_collect-IsDiscovery options sends rounds)
    ]
  ]
]
