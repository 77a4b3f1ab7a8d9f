-- ===== src/Session/Request/Answers.antt =====
-- Which of the datagrams of a wait is taken as the acknowledgement.
use livox_mid360_core.Prelude.{
  ℕ, ◌≡◌, refl, sym, ap, ◌∙◌, ◌⊎◌, inl, inr, List, [], ◌∷◌, ◌++◌, Option, none, some, Result, ok,
  err, fault, Safe, ==_iff, arith, true,
}
use livox_mid360_core.Protocol.Types.{CommandFrameView}
use livox_mid360_core.Protocol.CommandFrame.{parse_command_frame}
use livox_mid360_core.Protocol.CommandFrame.Parse.{parse_command_frame-Safe}
use livox_mid360_core.Transport.{Endpoint, Datagram, same_bytes, same_bytes_eq, same_bytes_refl}
use livox_mid360_core.Session.Types.{SessionStats, RawAck}
use livox_mid360_core.Session.Acks.{AckMismatch, match_ack}
use livox_mid360_core.Session.Request.{Session, read_datagrams, count_in}

-- Some element has the property.
abbrev pub Any {ℓ} : {A : Type ℓ} → (A → Type 0) → List A → Type 0
Any P [] = ⊥
Any P (x ∷ xs) = P x ⊎ Any P xs

pub Any-append_left {ℓ} :
    {A : Type ℓ} (P : A → Type 0) (xs ys : List A) → Any P xs → Any P (xs ++ ys)
Any-append_left P [] ys h = elim h [ ]
Any-append_left P (x ∷ xs) ys (inl p) = inl p
Any-append_left P (x ∷ xs) ys (inr h) = inr (Any-append_left P xs ys h)

pub Any-append_right {ℓ} :
    {A : Type ℓ} (P : A → Type 0) (xs ys : List A) → Any P ys → Any P (xs ++ ys)
Any-append_right P [] ys h = h
Any-append_right P (x ∷ xs) ys h = inr (Any-append_right P xs ys h)

pub Safe-cases :
    {E A : Type 0} {P : A → Type 0} (r : Result E A)
    → Safe P r
    → ((a : A) × (r ≡ ok a) × P a) ⊎ ((e : E) × (r ≡ err e))
Safe-cases (ok a) h = inl (a, refl, h)
Safe-cases (err e) h = inr (e, refl)
Safe-cases fault h = elim h [ ]

is_ok_err : {E A : Type 0} {a : A} {e : E} → ok a ≡ err e → ⊥
is_ok_err h = absurd (cc h)

module _ (seq cmd_id : ℕ) (ip : List ℕ) where
  -- A valid frame from the LiDAR that acknowledges this request.
  pub record IsAck (bytes : List ℕ) (from : Endpoint) (view : CommandFrameView) : Type 0 where
    pub parsed : parse_command_frame bytes ≡ ok view
    pub is_ack : view.header.cmd_type ≡ 1
    pub same_seq : view.header.seq_num ≡ seq
    pub same_cmd : view.header.cmd_id ≡ cmd_id
    pub from_lidar : from.ip ≡ ip

  -- The datagram is such a frame, and carries the data of the result.
  abbrev pub IsAnswer : RawAck → Datagram → Type 0
  IsAnswer a d =
      (view : CommandFrameView) × IsAck d.bytes d.from view
      × (a ≡ record { cmd_id = cmd_id; seq_num = seq; payload = view.payload })

  IsAck-checks :
      (bytes : List ℕ) (from : Endpoint) (view : CommandFrameView)
      → parse_command_frame bytes ≡ ok view
      → Safe (IsAck bytes from) (match_ack bytes from seq cmd_id ip)
  unfolding match_ack
  IsAck-checks bytes from view e = rw e (ground (arith, e, same_bytes_eq from.ip ip))

  -- No datagram makes the match fault, and what it takes is an acknowledgement of the request.
  pub match_ack-IsAck :
      (bytes : List ℕ) (from : Endpoint)
      → Safe (IsAck bytes from) (match_ack bytes from seq cmd_id ip)
  unfolding match_ack
  match_ack-IsAck bytes from =
      elim (Safe-cases (parse_command_frame bytes) (parse_command_frame-Safe bytes)) [
        | inl (view, e, h) ↦ IsAck-checks bytes from view e
        | inr (x, e) ↦ rw e tt
      ]

  -- Every acknowledgement of the request is taken.
  pub IsAck-match_ack :
      (bytes : List ℕ) (from : Endpoint) (view : CommandFrameView)
      → IsAck bytes from view
      → match_ack bytes from seq cmd_id ip ≡ ok view
  unfolding match_ack
  IsAck-match_ack bytes from view h =
      let type_ok = (==_iff view.header.cmd_type 1).1 h.is_ack in
      let seq_ok = (==_iff view.header.seq_num seq).1 h.same_seq in
      let cmd_ok = (==_iff view.header.cmd_id cmd_id).1 h.same_cmd in
      let ip_ok : same_bytes from.ip ip ≡ true =
        ap (λ a. same_bytes a ip) h.from_lidar ∙ same_bytes_refl ip in
      rw (h.parsed, type_ok, seq_ok, cmd_ok, ip_ok)

  -- The first datagram that matches.
  abbrev pub first_answer : List Datagram → Option RawAck
  first_answer [] = none
  first_answer (d ∷ ds) = elim (match_ack d.bytes d.from seq cmd_id ip) [
    | ok view ↦ some (record { cmd_id = cmd_id; seq_num = seq; payload = view.payload })
    | err e ↦ first_answer ds
    | fault ↦ none
  ]

  pub match_ack-cases :
      (bytes : List ℕ) (from : Endpoint)
      → ((view : CommandFrameView) × (match_ack bytes from seq cmd_id ip ≡ ok view)
          × IsAck bytes from view)
        ⊎ ((e : AckMismatch) × (match_ack bytes from seq cmd_id ip ≡ err e))
  match_ack-cases bytes from =
      Safe-cases (match_ack bytes from seq cmd_id ip) (match_ack-IsAck bytes from)

  pub first_answer-append :
      (xs ys : List Datagram)
      → first_answer (xs ++ ys)
        ≡ elim (first_answer xs) [ none ↦ first_answer ys | some a ↦ some a ]
  first_answer-append [] ys = refl
  first_answer-append (d ∷ xs) ys = elim (match_ack-cases d.bytes d.from) [
    | inl (view, e, h) ↦ rw (e, first_answer) refl
    | inr (x, e) ↦ rw (e, first_answer) (first_answer-append xs ys)
  ]

  pub first_answer-IsAnswer :
      (ds : List Datagram) (a : RawAck) → first_answer ds ≡ some a → Any (IsAnswer a) ds
  first_answer-IsAnswer [] a h = cc
  first_answer-IsAnswer (d ∷ ds) a h = elim (match_ack-cases d.bytes d.from) [
    | inl (view, e, k) ↦ inl (view, k, cc)
    | inr (x, e) ↦ inr (
        first_answer-IsAnswer ds a (
          ap
            (λ r. elim r [
              | ok view ↦ some (record { cmd_id = cmd_id; seq_num = seq; payload = view.payload })
              | err y ↦ first_answer ds
              | fault ↦ none
            ])
            (sym e)
          ∙ h))
  ]

  -- With an answer among the datagrams there is a first one.
  pub IsAnswer-first_answer :
      (ds : List Datagram) (a : RawAck)
      → Any (IsAnswer a) ds
      → (b : RawAck) × (first_answer ds ≡ some b)
  IsAnswer-first_answer [] a h = elim h [ ]
  IsAnswer-first_answer (d ∷ ds) a (inl (view, k, e)) =
      let found : RawAck = record { cmd_id = cmd_id; seq_num = seq; payload = view.payload } in
      (found, rw (IsAck-match_ack d.bytes d.from view k, first_answer) refl)
  IsAnswer-first_answer (d ∷ ds) a (inr h) = elim (match_ack-cases d.bytes d.from) [
    | inl (view, e, k) ↦ (
      record { cmd_id = cmd_id; seq_num = seq; payload = view.payload },
      rw (e, first_answer) refl,
    )
    | inr (x, e) ↦ rw (e, first_answer) (IsAnswer-first_answer ds a h)
  ]

module _ (seq cmd_id : ℕ) (ip : List ℕ) where
  -- The first datagram that is an acknowledgement of the request gives the result, if there is one.
  abbrev pub IsFirst : List Datagram → Option RawAck → Type 0
  IsFirst [] r = r ≡ none
  IsFirst (d ∷ ds) r =
      ((a : RawAck) × IsAnswer seq cmd_id ip a d × (r ≡ some a))
      ⊎ (((view : CommandFrameView) → IsAck seq cmd_id ip d.bytes d.from view → ⊥) × IsFirst ds r)

  pub first_answer-IsFirst : (ds : List Datagram) → IsFirst ds (first_answer seq cmd_id ip ds)
  first_answer-IsFirst [] = refl
  first_answer-IsFirst (d ∷ ds) = elim (match_ack-cases seq cmd_id ip d.bytes d.from) [
    | inl (view, e, k) ↦
        rw (e, first_answer)
          (inl (
            record { cmd_id = cmd_id; seq_num = seq; payload = view.payload },
            (view, k, refl),
            refl,
          ))
    | inr (x, e) ↦
        rw (e, first_answer)
          (inr (
            (λ view k. is_ok_err (sym (IsAck-match_ack seq cmd_id ip d.bytes d.from view k) ∙ e)),
            first_answer-IsFirst ds,
          ))
  ]

-- Reading changes nothing but the counters, and ends with the first match.
pub read_datagrams_lem :
    (seq cmd_id : ℕ) (ds : List Datagram) (s : Session)
    → (stats : SessionStats) × (read_datagrams seq cmd_id ds s
        ≡ (record s { stats = stats }, ok (first_answer seq cmd_id s.lidar.ip ds)))
unfolding read_datagrams
read_datagrams_lem seq cmd_id [] s = (s.stats, refl)
read_datagrams_lem seq cmd_id (d ∷ ds) s =
    elim (match_ack-cases seq cmd_id s.lidar.ip d.bytes d.from) [
      | inl (view, e, h) ↦ rw (e, read_datagrams, first_answer) (s.stats, refl)
      | inr (x, e) ↦
          rw (e, read_datagrams, first_answer) (read_datagrams_lem seq cmd_id ds (count_in x s))
    ]
