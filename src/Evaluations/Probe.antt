-- ===== src/Evaluations/Probe.antt =====
-- `probe_vision` of tools/run_codex_evaluations.py: a model is shown an image of five digits, and has
-- to write them. The messages are given in their order, with whether the 90 seconds have passed by
-- then; what counts as white space is a parameter.
pub mod Passing
use chers.Base.{
  ℕ, suc, ◌+◌, Bool, true, false, ◌&&◌, not, Option, none, some, List, [], ◌∷◌, ◌++◌, ◌==◌, length,
  if◌then◌else◌,
}
use chers.Runs.{Text, same_text}
use chers.Base.Decimal.{codes}

-- The messages by their `method`; the texts of `agentMessage` items are given.
pub data ProbeContent : Type 0 where
  probe_call : ℕ → Bool → ProbeContent
  agent_message : Text → ProbeContent
  other_item : ProbeContent
  probe_error : Text → ProbeContent
  probe_turn : Text → ProbeContent
  other_message : ProbeContent

-- A turn of the loop: whether the time is over, and a message, if one was received.
pub record ProbeRound : Type 0 where
  pub late : Bool
  pub message : Option (Bool × Bool × ProbeContent)
  pub responds : Bool

-- The entries of `record`, and the identifiers of the requests that were answered with the image.
pub record Probe : Type 0 where
  pub tool_calls : ℕ
  pub images_sent : List ℕ
  pub texts : List Text
  pub error : Option Text
  pub turn_status : Option Text

pub data ProbeError : Type 0 where
  transport_lost unexpected_probe_tool not_sent : ProbeError

-- A turn goes on, leaves the loop, or raises.
pub data Probing : Type 0 where
  goes_on leaves : Probe → Probing
  probe_raises : ProbeError → Probe → Probing

unfoldable pub start_probe : Probe
start_probe = record {
  tool_calls = 0;
  images_sent = [];
  texts = [];
  error = none;
  turn_status = none;
}

-- The branches on `method`.
unfoldable pub probe_message : Bool → ProbeContent → Probe → Probing
probe_message responds (probe_call id known) p =
    if not known
    then probe_raises unexpected_probe_tool p
    else if not responds
    then probe_raises not_sent (record p { tool_calls = suc p.tool_calls })
    else goes_on
        (record p { tool_calls = suc p.tool_calls; images_sent = p.images_sent ++ id ∷ [] })
probe_message responds (agent_message text) p = goes_on (record p { texts = p.texts ++ text ∷ [] })
probe_message responds (probe_error text) p = goes_on (record p { error = some text })
probe_message responds (probe_turn status) p = leaves (record p { turn_status = some status })
probe_message responds other_item p = goes_on p
probe_message responds other_message p = goes_on p

-- A message: whether the transport ended, whether it is of the own thread, and its content.
abbrev pub probe_received : Bool → Option (Bool × Bool × ProbeContent) → Probe → Probing
probe_received responds none p = goes_on p
probe_received responds (some (transport_ended, own_thread, content)) p =
    if transport_ended
    then probe_raises transport_lost p
    else if not own_thread
    then goes_on p
    else probe_message responds content p

-- The loop.
unfoldable pub probe_loop : List ProbeRound → Probe → Option ProbeError × Probe
unfolding probe_message
probe_loop [] p = (none, p)
probe_loop (r ∷ rs) p = if r.late then (none, p) else elim (probe_received r.responds r.message p) [
  | goes_on p' ↦ probe_loop rs p'
  | leaves p' ↦ (none, p')
  | probe_raises e p' ↦ (some e, p')
]

-- `"\n".join(texts)`
abbrev pub join_lines : List Text → Text
join_lines [] = []
join_lines (t ∷ []) = t
join_lines (t ∷ u ∷ texts) = t ++ b'\n' ∷ join_lines (u ∷ texts)

abbrev pub drop_space : (ℕ → Bool) → Text → Text
drop_space is_space [] = []
drop_space is_space (c ∷ cs) = if is_space c then drop_space is_space cs else c ∷ cs

abbrev pub reversed : Text → Text → Text
reversed [] done = done
reversed (c ∷ cs) done = reversed cs (c ∷ done)

-- `response.strip()`
unfoldable pub strip : (ℕ → Bool) → Text → Text
strip is_space text = reversed (drop_space is_space (reversed (drop_space is_space text) [])) []

abbrev pub is_completed_turn : Option Text → Bool
is_completed_turn none = false
is_completed_turn (some status) = same_text status (codes "completed")

-- `record["passed"]`; what raises leaves it `False`.
unfoldable pub probe_passed : (ℕ → Bool) → Text → Option ProbeError × Probe → Bool
unfolding strip
probe_passed is_space answer (some e, p) = false
probe_passed is_space answer (none, p) =
    is_completed_turn p.turn_status
    && not (p.tool_calls == 0)
    && same_text (strip is_space (join_lines p.texts)) answer

-- `probe_vision`, from the first turn on.
unfoldable pub probe_vision : (ℕ → Bool) → Text → List ProbeRound → Bool
unfolding probe_loop probe_passed start_probe
probe_vision is_space answer rounds = probe_passed is_space answer (probe_loop rounds start_probe)
