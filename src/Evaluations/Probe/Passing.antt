-- ===== src/Evaluations/Probe/Passing.antt =====
-- What a model has done that passes the preflight.
use chers.Base.{
  both, ℕ, ◌<◌, ◌≡◌, refl, ap, Bool, true, ◌&&◌, not, Option, none, some, List, [], ◌∷◌, ◌==◌,
  length, length-append, branch, arith,
}
use chers.Base.Decimal.{codes}
use chers.Runs.{Text}
use chers.Runs.Rank.{same_text-eq}
use chers.Evaluations.Probe.{
  ProbeContent, probe_call, agent_message, other_item, probe_error, probe_turn, other_message,
  ProbeRound, Probe, ProbeError, Probing, goes_on, leaves, probe_raises, start_probe, probe_message,
  probe_received, probe_loop, join_lines, strip, is_completed_turn, probe_passed, probe_vision,
}

-- As many images have been sent as tool calls are recorded.
abbrev Balanced : Probe → Type 0
Balanced p = p.tool_calls ≡ length p.images_sent

abbrev BalancedTurn : Probing → Type 0
BalancedTurn (goes_on p) = Balanced p
BalancedTurn (leaves p) = Balanced p
BalancedTurn (probe_raises e p) = Unit

abbrev BalancedEnd : Option ProbeError × Probe → Type 0
BalancedEnd (none, p) = Balanced p
BalancedEnd (some e, p) = Unit

probe_message-Balanced :
    (responds : Bool) (content : ProbeContent) (p : Probe)
    → Balanced p
    → BalancedTurn (probe_message responds content p)
unfolding probe_message
probe_message-Balanced responds (probe_call id known) p b =
    branch BalancedTurn (not known) _ _ (λ _. tt)
      (λ _.
        branch BalancedTurn (not responds) _ _ (λ _. tt)
          (λ _. omega (arith, b, length-append p.images_sent (id ∷ []))))
probe_message-Balanced responds (agent_message text) p b = b
probe_message-Balanced responds (probe_error text) p b = b
probe_message-Balanced responds (probe_turn status) p b = b
probe_message-Balanced responds other_item p b = b
probe_message-Balanced responds other_message p b = b

probe_received-Balanced :
    (responds : Bool) (message : Option (Bool × Bool × ProbeContent)) (p : Probe)
    → Balanced p
    → BalancedTurn (probe_received responds message p)
probe_received-Balanced responds none p b = b
probe_received-Balanced responds (some (transport_ended, own_thread, content)) p b =
    branch BalancedTurn transport_ended _ _ (λ _. tt)
      (λ _.
        branch BalancedTurn (not own_thread) _ _ (λ _. b)
          (λ _. probe_message-Balanced responds content p b))

by_turn :
    (t : Probing) (rest : Probe → Option ProbeError × Probe)
    → BalancedTurn t
    → ((p : Probe) → Balanced p → BalancedEnd (rest p))
    → BalancedEnd (elim t as (λ _. Option ProbeError × Probe) [
      | goes_on p ↦ rest p
      | leaves p ↦ (none, p)
      | probe_raises e p ↦ (some e, p)
    ])
by_turn (goes_on p) rest b f = f p b
by_turn (leaves p) rest b f = b
by_turn (probe_raises e p) rest b f = tt

probe_loop-Balanced :
    (rounds : List ProbeRound) (p : Probe) → Balanced p → BalancedEnd (probe_loop rounds p)
unfolding probe_loop
probe_loop-Balanced [] p b = b
probe_loop-Balanced (r ∷ rs) p b =
    branch BalancedEnd r.late _ _ (λ _. b)
      (λ _.
        by_turn (probe_received r.responds r.message p) (probe_loop rs)
          (probe_received-Balanced r.responds r.message p b) (λ q c. probe_loop-Balanced rs q c))

-- The loop has ended with a completed turn, at least one image was sent, and the lines of the model's
-- messages are, but for the white space around them, the answer.
abbrev pub SawImage : (ℕ → Bool) → Text → Option ProbeError × Probe → Type 0
SawImage is_space answer (some e, p) = ⊥
SawImage is_space answer (none, p) =
    (p.turn_status ≡ some (codes "completed"))
    × (0 < length p.images_sent)
    × (strip is_space (join_lines p.texts) ≡ answer)

completed-eq : (o : Option Text) → is_completed_turn o ≡ true → o ≡ some (codes "completed")
completed-eq none e = absurd (cc e)
completed-eq (some status) e = ap some (same_text-eq status (codes "completed") e)

probe_passed-SawImage :
    (is_space : ℕ → Bool) (answer : Text) (r : Option ProbeError × Probe)
    → BalancedEnd r
    → probe_passed is_space answer r ≡ true
    → SawImage is_space answer r
unfolding probe_passed
probe_passed-SawImage is_space answer (some e, p) b h = absurd (cc h)
probe_passed-SawImage is_space answer (none, p) b h =
    let (first, answered) = both (is_completed_turn p.turn_status && not (p.tool_calls == 0)) _ h in
    let (ended, called) = both (is_completed_turn p.turn_status) (not (p.tool_calls == 0)) first in
    (
      completed-eq p.turn_status ended,
      some_sent p.tool_calls (length p.images_sent) b called,
      same_text-eq _ answer answered,
    )
  where
    some_sent : (m n : ℕ) → m ≡ n → not (m == 0) ≡ true → 0 < n
    some_sent m n e h = ground arith

-- Whatever the messages, a model passes the preflight only if its turn has completed, it was sent the
-- image at least once, and the lines that it wrote are the answer, but for white space around them.
pub probe_vision-SawImage :
    (is_space : ℕ → Bool) (answer : Text) (rounds : List ProbeRound)
    → probe_vision is_space answer rounds ≡ true
    → SawImage is_space answer (probe_loop rounds start_probe)
unfolding probe_vision start_probe
probe_vision-SawImage is_space answer rounds h =
    probe_passed-SawImage is_space answer (probe_loop rounds start_probe)
      (probe_loop-Balanced rounds start_probe start-Balanced) h
  where
    start-Balanced : Balanced start_probe
    start-Balanced = refl
