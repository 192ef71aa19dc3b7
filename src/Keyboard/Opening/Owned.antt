-- ===== src/Keyboard/Opening/Owned.antt =====
-- Which windows `find_window_for_pid` finds.
use chers.Base.{
  ℕ, zero, suc, ◌+◌, ◌≤◌, ◌<◌, ◌≡◌, refl, ap, ◌≢◌, ◌⊎◌, Bool, true, false, not, Option, none, some,
  List, [], ◌∷◌, inl, inr, Bool-cases, branch, arith, if◌then◌else◌, ==_iff, ◌==◌, pos,
}
use chers.Keyboard.{KeyResult, done, raised, no_window}
use chers.Keyboard.Opening.{
  PropertyReply, property32, is_owner, NumberArgument, whole, positive, owned_window, search_round,
  search_rounds, find_window_for_pid,
}

abbrev pub IsIn : ℕ → List ℕ → Type 0
IsIn w [] = ⊥
IsIn w (x ∷ xs) = (x ≡ w) ⊎ IsIn w xs

pub is_owner-eq : (owners : List ℕ) (pid : ℕ) → is_owner owners pid ≡ true → owners ≡ pid ∷ []
is_owner-eq [] pid e = absurd (cc e)
is_owner-eq (owner ∷ []) pid e = ap (λ (o : ℕ). o ∷ []) ((==_iff owner pid).0 e)
is_owner-eq (owner ∷ other ∷ owners) pid e = absurd (cc e)

module _ (client_list : ℕ → PropertyReply) (window_pid : ℕ → ℕ → PropertyReply)
    (late : ℕ → Bool) where
  -- A window that a round has listed, and whose only owner is the process.
  abbrev pub IsOwned : ℕ → ℕ → Type 0
  IsOwned pid w =
      (round : ℕ) × (windows : List ℕ) × (property32 (client_list round) ≡ done windows)
      × IsIn w windows
      × (property32 (window_pid round w) ≡ done (pid ∷ []))

  window_step :
      (pid w window : ℕ) (r : KeyResult (List ℕ)) (rest : KeyResult (Option ℕ))
      → elim r as (λ _. KeyResult (Option ℕ)) [
        | raised e ↦ raised e
        | done owners ↦ if is_owner owners pid then done (some window) else rest
      ]
        ≡ done (some w)
      → ((r ≡ done (pid ∷ [])) × (window ≡ w)) ⊎ (rest ≡ done (some w))
  window_step pid w window (raised e) rest h = absurd (cc h)
  window_step pid w window (done owners) rest h = elim (Bool-cases (is_owner owners pid)) [
    | inl own ↦ inl (ap done (is_owner-eq owners pid own), ground arith)
    | inr other ↦ inr (ground arith)
  ]

  owned_window-IsIn :
      (pid round w : ℕ) (windows : List ℕ)
      → owned_window client_list window_pid late pid round windows ≡ done (some w)
      → IsIn w windows × (property32 (window_pid round w) ≡ done (pid ∷ []))
  unfolding owned_window
  owned_window-IsIn pid round w [] h = absurd (cc h)
  owned_window-IsIn pid round w (window ∷ windows) h =
      elim (window_step pid w window (property32 (window_pid round window)) _ h) [
        | inl (own, same) ↦ (inl same, rw (← same) own)
        | inr later ↦ let (i, own) = owned_window-IsIn pid round w windows later in (inr i, own)
      ]

  search_round-IsOwned :
      (pid round w : ℕ)
      → search_round client_list window_pid late pid round ≡ done (some w)
      → IsOwned pid w
  unfolding search_round
  search_round-IsOwned pid round w h = by_list (property32 (client_list round)) refl h
    where
      by_list :
          (r : KeyResult (List ℕ))
          → property32 (client_list round) ≡ r
          → elim r as (λ _. KeyResult (Option ℕ)) [
            | raised e ↦ raised e
            | done windows ↦ owned_window client_list window_pid late pid round windows
          ]
            ≡ done (some w)
          → IsOwned pid w
      by_list (raised e) q h = absurd (cc h)
      by_list (done windows) q h =
          let (i, own) = owned_window-IsIn pid round w windows h in (round, windows, q, i, own)

  search_step :
      (pid round w : ℕ) (r : KeyResult (Option ℕ)) (rest : Option (KeyResult ℕ))
      → elim r as (λ _. Option (KeyResult ℕ)) [
        | raised e ↦ some (raised e)
        | done (some window) ↦ some (done window)
        | done none ↦ if late round then some (raised no_window) else rest
      ]
        ≡ some (done w)
      → (r ≡ done (some w)) ⊎ (rest ≡ some (done w))
  search_step pid round w (raised e) rest h = absurd (cc h)
  search_step pid round w (done (some window)) rest h = inl (cc h)
  search_step pid round w (done none) rest h = inr (ground arith)

  search_rounds-IsOwned :
      (fuel pid round w : ℕ)
      → search_rounds client_list window_pid late fuel pid round ≡ some (done w)
      → IsOwned pid w
  unfolding search_rounds
  search_rounds-IsOwned zero pid round w h = absurd (cc h)
  search_rounds-IsOwned (suc fuel) pid round w h =
      elim (search_step pid round w (search_round client_list window_pid late pid round) _ h) [
        | inl found ↦ search_round-IsOwned pid round w found
        | inr later ↦ search_rounds-IsOwned fuel pid (suc round) w later
      ]

  stops :
      (round : ℕ) (r : KeyResult (Option ℕ)) (rest : Option (KeyResult ℕ))
      → (late round ≡ false → rest ≢ none)
      → elim r as (λ _. Option (KeyResult ℕ)) [
        | raised e ↦ some (raised e)
        | done (some window) ↦ some (done window)
        | done none ↦ if late round then some (raised no_window) else rest
      ]
        ≢ none
  stops round (raised e) rest h = λ q. cc q
  stops round (done (some window)) rest h = λ q. cc q
  stops round (done none) rest h = branch (λ o. o ≢ none) (late round) _ _ (λ _. λ q. cc q) h

  search_rounds-total :
      (fuel pid round n : ℕ)
      → late n ≡ true
      → round ≤ n
      → n < round + fuel
      → search_rounds client_list window_pid late fuel pid round ≢ none
  unfolding search_rounds
  search_rounds-total zero pid round n d a b = absurd (omega arith)
  search_rounds-total (suc fuel) pid round n d a b =
      stops round (search_round client_list window_pid late pid round) _
        (λ early. search_rounds-total fuel pid (suc round) n d (later early) (omega arith))
    where
      later : late round ≡ false → suc round ≤ n
      later early = elim (Bool-cases (round == n)) [
        | inl same ↦ absurd (cc (early, d, (==_iff round n).0 same))
        | inr other ↦ ground arith
      ]

  -- A search has ended, and a window that it gives is owned.
  abbrev pub Ends : NumberArgument → Option (KeyResult ℕ) → Type 0
  Ends pid none = ⊥
  Ends pid (some (raised e)) = Unit
  Ends pid (some (done w)) = (p : ℕ) × (positive pid ≡ some p) × (0 < p) × IsOwned p w

  rounds-Ends :
      (pid : NumberArgument) (p : ℕ) (o : Option (KeyResult ℕ))
      → positive pid ≡ some p
      → 0 < p
      → o ≢ none
      → ((w : ℕ) → o ≡ some (done w) → IsOwned p w)
      → Ends pid o
  rounds-Ends pid p none q g t f = t refl
  rounds-Ends pid p (some (raised e)) q g t f = tt
  rounds-Ends pid p (some (done w)) q g t f = (p, q, g, f w refl)

  -- If the deadline has passed at the end of some round, with fuel for it `find_window_for_pid` ends,
  -- for any argument: with a raise, or with a window that was listed in some round and whose only
  -- owner was the process with the given, positive, number.
  pub find_window_for_pid-Ends :
      (fuel n : ℕ) (pid : NumberArgument) (threads opens : Bool)
      → late n ≡ true
      → n < fuel
      → Ends pid (find_window_for_pid client_list window_pid late fuel pid threads opens)
  unfolding find_window_for_pid
  find_window_for_pid-Ends fuel n (whole (pos (suc p))) threads opens d b =
      branch (Ends (whole (pos (suc p)))) (not threads) _ _ (λ _. tt)
        (λ _.
          branch (Ends (whole (pos (suc p)))) (not opens) _ _ (λ _. tt)
            (λ _.
              rounds-Ends (whole (pos (suc p))) (suc p) _ refl (omega arith)
                (search_rounds-total fuel (suc p) 0 n d (omega arith) (omega arith))
                (search_rounds-IsOwned fuel (suc p) 0)))
  find_window_for_pid-Ends fuel n _ threads opens d b = tt
