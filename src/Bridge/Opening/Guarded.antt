-- ===== src/Bridge/Opening/Guarded.antt =====
-- What the opening of a bridge promises on each of its ends.
use chers.Base.{
  ℕ, pos, negsuc, ◌≤◌, ◌<◌, ◌≡◌, ◌⊎◌, refl, ap, subst, Bool, true, false, not, not-true, not-false,
  ◌&&◌, Option, none, some, leb, branch, arith, Bool-cases, inl, inr, if◌then◌else◌,
}
use chers.Bridge.State.{init}
use chers.Client.{Library, Client, ClientError, ClientResult, connect, close_client}
use chers.Client as Bindings
use chers.Keyboard.{Keyboard, KeyError, KeyResult}
use chers.Keyboard as Keys
use chers.Keyboard.Opening.{NumberArgument, whole, other_number, Desktop, open_keyboard}
use chers.Bridge.Opening.{
  Mode, keyboard_mode, transport_test, injected_test, other_mode, KeySource, injected, transport,
  native, bad_lanes, bad_mode, no_client, no_keys, OpenedBridge, OpeningResult, done, raised,
  bridge_lanes, is_mode, native_keys, keys_for, client_for, with_keys, with_client, open_bridge,
}

-- The keys are those of the mode: a keyboard only as its own opening gives it.
abbrev FromMode : Desktop → NumberArgument → Option ℕ → Bool → Mode → KeySource → Type 0
FromMode desktop window_id pid key_sink mode injected = key_sink ≡ true
FromMode desktop window_id pid key_sink mode transport =
    (key_sink ≡ false) × (mode ≡ transport_test)
FromMode desktop window_id pid key_sink mode (native k) =
    (key_sink ≡ false)
    × (mode ≡ keyboard_mode)
    × ((open_keyboard desktop window_id pid).0 ≡ Keys.done k)

abbrev RaisedBy : Desktop → NumberArgument → Option ℕ → Bool → Mode → KeyError → Type 0
RaisedBy desktop window_id pid key_sink mode e =
    (key_sink ≡ false)
    × (mode ≡ keyboard_mode)
    × ((open_keyboard desktop window_id pid).0 ≡ Keys.raised e)

abbrev IsClosed : Option Client → Type 0
IsClosed none = ⊥
IsClosed (some client) = client.handle ≡ false

-- No number of lanes that a bridge may have.
abbrev Outside : NumberArgument → Type 0
Outside (whole (pos n)) = (n < 2) ⊎ (16 < n)
Outside _ = Unit

-- The mode that a bridge reports.
abbrev reported_mode : Bool → Mode → Mode
reported_mode true mode = injected_test
reported_mode false mode = mode

-- On success the state is the first one for the requested 2 to 16 lanes, and the client the given or
-- a new one. On a raise by the arguments the given client is untouched, and on one by the keys it is
-- closed.
module _ (library : Library) (desktop : Desktop) (lanes window_id : NumberArgument) (pid : Option ℕ)
    (given : Option Client) (key_sink : Bool) (mode : Mode) where
  abbrev pub Guarded : OpeningResult OpenedBridge × Option Client → Type 0
  Guarded (done o, client) =
      (o.bridge ≡ init o.bridge.lanes)
      × (lanes ≡ whole (pos o.bridge.lanes))
      × (2 ≤ o.bridge.lanes)
      × (o.bridge.lanes ≤ 16)
      × (o.mode ≡ reported_mode key_sink mode)
      × FromMode desktop window_id pid key_sink mode o.keys
      × (elim client [ none ↦ ⊥ | some c ↦ client_for library given ≡ Bindings.done c ])
  Guarded (raised bad_lanes, client) = Outside lanes × (client ≡ given)
  Guarded (raised bad_mode, client) =
      ((mode ≡ injected_test) ⊎ (mode ≡ other_mode)) × (client ≡ given)
  Guarded (raised (no_client e), client) =
      (client_for library given ≡ Bindings.raised e) × (client ≡ none)
  Guarded (raised (no_keys e), client) =
      RaisedBy desktop window_id pid key_sink mode e × IsClosed client

close_client-IsClosed : (library : Library) (c : Client) → IsClosed (some (close_client library c))
unfolding close_client
close_client-IsClosed library c =
    branch (λ (d : Client). d.handle ≡ false) c.handle _ _ (λ h. refl) (λ h. h)

bridge_lanes-within :
    (lanes : NumberArgument) (n : ℕ)
    → bridge_lanes lanes ≡ some n
    → (lanes ≡ whole (pos n)) × (2 ≤ n) × (n ≤ 16)
bridge_lanes-within (whole (pos m)) n e = elim (Bool-cases (leb 2 m && leb m 16)) [
  | inl h ↦
      let same : m ≡ n = cc (subst (λ b. (if b then some m else none) ≡ some n) h e) in
      (ap (λ k. whole (pos k)) same, ground (arith, h, same), ground (arith, h, same))
  | inr h ↦ absurd (cc (subst (λ b. (if b then some m else none) ≡ some n) h e))
]
bridge_lanes-within (whole (negsuc m)) n e = absurd (cc e)
bridge_lanes-within other_number n e = absurd (cc e)

bridge_lanes-Outside : (lanes : NumberArgument) → bridge_lanes lanes ≡ none → Outside lanes
bridge_lanes-Outside (whole (pos m)) e = elim (Bool-cases (leb 2 m)) [
  | inl low ↦ inr (ground (arith, low))
  | inr low ↦ inl (ground (arith, low))
]
bridge_lanes-Outside (whole (negsuc m)) e = tt
bridge_lanes-Outside other_number e = tt

is_mode-other : (mode : Mode) → is_mode mode ≡ false → (mode ≡ injected_test) ⊎ (mode ≡ other_mode)
is_mode-other keyboard_mode e = absurd (cc e)
is_mode-other transport_test e = absurd (cc e)
is_mode-other injected_test e = inl refl
is_mode-other other_mode e = inr refl

module _ (desktop : Desktop) (window_id : NumberArgument) (pid : Option ℕ) where
  abbrev KeysGiven : Bool → Mode → OpeningResult KeySource → Type 0
  KeysGiven key_sink mode (done k) = FromMode desktop window_id pid key_sink mode k
  KeysGiven key_sink mode (raised (no_keys e)) = RaisedBy desktop window_id pid key_sink mode e
  KeysGiven key_sink mode (raised _) = ⊥

  native_keys-KeysGiven :
      (r : KeyResult Keyboard)
      → (open_keyboard desktop window_id pid).0 ≡ r
      → KeysGiven false keyboard_mode (native_keys r)
  native_keys-KeysGiven (Keys.done k) e = (refl, refl, e)
  native_keys-KeysGiven (Keys.raised x) e = (refl, refl, e)

  keys_for-KeysGiven :
      (key_sink : Bool) (mode : Mode)
      → is_mode mode ≡ true
      → KeysGiven key_sink mode (keys_for desktop window_id pid key_sink mode)
  keys_for-KeysGiven true mode e = refl
  keys_for-KeysGiven false transport_test e = (refl, refl)
  keys_for-KeysGiven false keyboard_mode e = native_keys-KeysGiven _ refl
  keys_for-KeysGiven false injected_test e = absurd (cc e)
  keys_for-KeysGiven false other_mode e = absurd (cc e)

  module _ (library : Library) (given : Option Client) (lanes : NumberArgument) where
    with_keys-Guarded :
        (n : ℕ) (client : Client) (key_sink : Bool) (mode : Mode) (r : OpeningResult KeySource)
        → (lanes ≡ whole (pos n)) × (2 ≤ n) × (n ≤ 16)
        → client_for library given ≡ Bindings.done client
        → KeysGiven key_sink mode r
        → Guarded library desktop lanes window_id pid given key_sink mode
            (with_keys library n client key_sink mode r)
    unfolding init
    with_keys-Guarded n client true mode (done k) (same, low, high) e from =
        (refl, same, low, high, refl, from, e)
    with_keys-Guarded n client false mode (done k) (same, low, high) e from =
        (refl, same, low, high, refl, from, e)
    with_keys-Guarded n client key_sink mode (raised (no_keys x)) within e from =
        (from, close_client-IsClosed library client)
    with_keys-Guarded n client key_sink mode (raised bad_lanes) within e from = absurd from
    with_keys-Guarded n client key_sink mode (raised bad_mode) within e from = absurd from
    with_keys-Guarded n client key_sink mode (raised (no_client x)) within e from = absurd from

    with_client-Guarded :
        (n : ℕ) (key_sink : Bool) (mode : Mode) (r : ClientResult Client)
        → (lanes ≡ whole (pos n)) × (2 ≤ n) × (n ≤ 16)
        → is_mode mode ≡ true
        → client_for library given ≡ r
        → Guarded library desktop lanes window_id pid given key_sink mode
            (with_client library desktop n window_id pid key_sink mode r)
    with_client-Guarded n key_sink mode (Bindings.raised x) within known e = (e, refl)
    with_client-Guarded n key_sink mode (Bindings.done client) within known e =
        with_keys-Guarded n client key_sink mode _ within e (keys_for-KeysGiven key_sink mode known)

-- A bridge opens only with the requested lanes, 2 to 16, in its first state, on the given client or a
-- new one, with the mode that it reports and the keys of this mode: the sink that was given, without
-- one the client's taps exactly in transport-test and the keyboard, as its own opening gives it,
-- exactly in keyboard mode. Lanes outside of the range and unknown modes, and only these, are refused
-- with a given client left as it was; a client that cannot connect leaves none; and when the keyboard
-- is refused, in keyboard mode, the client, a new one too, is closed.
pub open_bridge-Guarded :
    (library : Library) (desktop : Desktop) (lanes window_id : NumberArgument) (pid : Option ℕ)
    (given : Option Client) (key_sink : Bool) (mode : Mode)
    → Guarded library desktop lanes window_id pid given key_sink mode
        (open_bridge library desktop lanes window_id pid given key_sink mode)
unfolding open_bridge
open_bridge-Guarded library desktop lanes window_id pid given key_sink mode =
    by_lanes (bridge_lanes lanes) refl
  where
    by_lanes :
        (r : Option ℕ)
        → bridge_lanes lanes ≡ r
        → Guarded library desktop lanes window_id pid given key_sink mode (elim r [
          | none ↦ (raised bad_lanes, given)
          | some n ↦
              if not (is_mode mode)
              then (raised bad_mode, given)
              else with_client library desktop n window_id pid key_sink mode
                  (client_for library given)
        ])
    by_lanes none e = (bridge_lanes-Outside lanes e, refl)
    by_lanes (some n) e =
        branch (Guarded library desktop lanes window_id pid given key_sink mode)
          (not (is_mode mode)) _ _ (λ h. (is_mode-other mode (not-true (is_mode mode) h), refl))
          (λ h.
            with_client-Guarded desktop window_id pid library given lanes n key_sink mode
              (client_for library given) (bridge_lanes-within lanes n e)
              (not-false (is_mode mode) h) refl)
