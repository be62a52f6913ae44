-- ===== src/Http/Connect/Secure.antt =====
-- Over what `openConnection` lets a request go.
use binder.Prelude.{
  ℕ, Bool, true, false, List, [], ◌∷◌, ◌++◌, ltb, if◌then◌else◌, Option, none, some, ◌≡◌, ◌≢◌, refl,
  ap, Bool-cases, inl, inr,
}
use binder.Text.{Bytes, equal}
use binder.Http.Code.{ok}
use binder.Http.Url.{Url, https}
use binder.Http.Connect.{
  Errno, Address, Resolved, unresolved, addresses, Tcp, no_socket, socket, connect_errno, Handshake,
  shaken, retry, fatal, Opened, plain_conn, tls_conn, not_opened, after_connect, try_addresses,
  connect_tcp, handshake, open_tls, after_tcp, open_connection,
}

module _ (timeout : ℕ) where
  -- One of the addresses has been connected to.
  abbrev pub Connects : Resolved → Type 0
  Connects (unresolved why) = ⊥
  Connects (addresses list) =
      (a : Address) × (front back : List Address) × (list ≡ front ++ (a ∷ back))
      × (a.has_socket ≡ true)
      × (connect_errno timeout a.elapsed a.connect ≡ none)

  -- The handshake has come to its end, and every round before the last was in time.
  abbrev pub Shakes : List Handshake → Type 0
  Shakes [] = ⊥
  Shakes (shaken ∷ rounds) = Unit {0}
  Shakes (retry elapsed ∷ rounds) = (ltb elapsed timeout ≡ true) × Shakes rounds
  Shakes (fatal why ∷ rounds) = ⊥

  next_Connects :
      (a : Address) (list : List Address)
      → Connects (addresses list)
      → Connects (addresses (a ∷ list))
  next_Connects a list (b, front, back, e, s, c) = (b, a ∷ front, back, ap (◌∷◌ a) e, s, c)

module _ (strerror : Errno → Bytes) (url : Url) (timeout : ℕ) where
  first_Connects :
      (a : Address) (rest : List Address) (next : Bytes → Tcp) (o : Option Errno)
      → connect_errno timeout a.elapsed a.connect ≡ o
      → a.has_socket ≡ true
      → ((error : Bytes) → next error ≡ socket → Connects timeout (addresses rest))
      → after_connect strerror url timeout next o ≡ socket
      → Connects timeout (addresses (a ∷ rest))
  first_Connects a rest next none e s ih k = (a, [], rest, refl, s, e)
  first_Connects a rest next (some why) e s ih k = next_Connects timeout a rest (ih _ k)

  either_Connects :
      (a : Address) (rest : List Address) (b : Bool) (tried skipped : Tcp)
      → a.has_socket ≡ b
      → (a.has_socket ≡ true → tried ≡ socket → Connects timeout (addresses (a ∷ rest)))
      → (skipped ≡ socket → Connects timeout (addresses (a ∷ rest)))
      → (if b then tried else skipped) ≡ socket
      → Connects timeout (addresses (a ∷ rest))
  either_Connects a rest true tried skipped s f g k = f s k
  either_Connects a rest false tried skipped s f g k = g k

  try_addresses-Connects :
      (error : Bytes) (list : List Address)
      → try_addresses strerror url timeout error list ≡ socket
      → Connects timeout (addresses list)
  unfolding try_addresses
  try_addresses-Connects error [] h = absurd (cc)
  try_addresses-Connects error (a ∷ rest) h =
      either_Connects a rest a.has_socket _ _ refl
        (λ s k.
          first_Connects a rest (λ error'. try_addresses strerror url timeout error' rest)
            (connect_errno timeout a.elapsed a.connect) refl s
            (λ error'. try_addresses-Connects error' rest) k)
        (λ k. next_Connects timeout a rest (try_addresses-Connects error rest k)) h

  connect_tcp-Connects :
      (resolved : Resolved)
      → connect_tcp strerror url timeout resolved ≡ socket
      → Connects timeout resolved
  unfolding connect_tcp
  connect_tcp-Connects (unresolved why) h = absurd (cc)
  connect_tcp-Connects (addresses list) h = try_addresses-Connects _ list h

  -- What the result of a handshake says of its rounds.
  abbrev Shaken : List Handshake → Opened → Type 0
  Shaken rounds plain_conn = ⊥
  Shaken rounds tls_conn = Shakes timeout rounds
  Shaken rounds (not_opened code why) = code ≢ ok

  retry_Shaken :
      (elapsed : ℕ) (rounds : List Handshake) (o : Opened)
      → ltb elapsed timeout ≡ true
      → Shaken rounds o
      → Shaken (retry elapsed ∷ rounds) o
  retry_Shaken elapsed rounds plain_conn e h = h
  retry_Shaken elapsed rounds tls_conn e h = (e, h)
  retry_Shaken elapsed rounds (not_opened code why) e h = h

  handshake-Shaken :
      (rounds : List Handshake) → Shaken rounds (handshake strerror url timeout rounds)
  unfolding handshake
  handshake-Shaken [] = λ e. cc
  handshake-Shaken (shaken ∷ rounds) = tt
  handshake-Shaken (retry elapsed ∷ rounds) = elim (Bool-cases (ltb elapsed timeout)) [
    | inl e ↦ rw e (retry_Shaken elapsed rounds _ e (handshake-Shaken rounds))
    | inr e ↦ rw e (λ h. cc)
  ]
  handshake-Shaken (fatal why ∷ rounds) = λ e. cc

  -- What an opened connection says of the way to it.
  abbrev pub Secures : Resolved → Option (Option Bytes) → List Handshake → Opened → Type 0
  Secures resolved tls rounds plain_conn =
      (equal url.scheme https ≡ false) × Connects timeout resolved
  Secures resolved tls rounds tls_conn =
      (equal url.scheme https ≡ true)
      × Connects timeout resolved
      × (tls ≡ some none)
      × Shakes timeout rounds
  Secures resolved tls rounds (not_opened code why) = code ≢ ok

  Shaken-Secures :
      (resolved : Resolved) (rounds : List Handshake) (o : Opened)
      → equal url.scheme https ≡ true
      → Connects timeout resolved
      → Shaken rounds o
      → Secures resolved (some none) rounds o
  Shaken-Secures resolved rounds plain_conn e c h = absurd h
  Shaken-Secures resolved rounds tls_conn e c h = (e, c, refl, h)
  Shaken-Secures resolved rounds (not_opened code why) e c h = h

  open_tls-Secures :
      (resolved : Resolved) (tls : Option (Option Bytes)) (rounds : List Handshake)
      → equal url.scheme https ≡ true
      → Connects timeout resolved
      → Secures resolved tls rounds (open_tls strerror url timeout tls rounds)
  open_tls-Secures resolved none rounds e c = λ h. cc
  open_tls-Secures resolved (some (some why)) rounds e c = λ h. cc
  open_tls-Secures resolved (some none) rounds e c =
      Shaken-Secures resolved rounds _ e c (handshake-Shaken rounds)

  after_tcp-Secures :
      (resolved : Resolved) (tls : Option (Option Bytes)) (rounds : List Handshake) (t : Tcp)
      → (t ≡ socket → Connects timeout resolved)
      → Secures resolved tls rounds (after_tcp strerror url timeout tls rounds t)
  after_tcp-Secures resolved tls rounds (no_socket why) c = λ h. cc
  after_tcp-Secures resolved tls rounds socket c = elim (Bool-cases (equal url.scheme https)) [
    | inl e ↦ rw e (open_tls-Secures resolved tls rounds e (c refl))
    | inr e ↦ rw e (e, c refl)
  ]

  -- An https URL never goes over a plain connection: a connection that is opened is to one of the
  -- addresses that the name resolves to, one that accepted it in time; it is plain only if the scheme
  -- is not https, and over TLS only where TLS can be used and the handshake has come to its end with
  -- every round in time. A connection that is not opened is an error.
  pub open_connection-Secures :
      (resolved : Resolved) (tls : Option (Option Bytes)) (rounds : List Handshake)
      → Secures resolved tls rounds (open_connection strerror url timeout resolved tls rounds)
  unfolding open_connection
  open_connection-Secures resolved tls rounds =
      after_tcp-Secures resolved tls rounds (connect_tcp strerror url timeout resolved)
        (connect_tcp-Connects resolved)
