-- ===== src/Commands/Modes.antt =====
-- How src/Server/commands.cpp classifies a command line.
use multithreaded_network_jo.Prelude.{
  ◌≡◌, ◌≢◌, ◌↔◌, subst, arith, Bytes, codes, same_text, same_text_iff,
}
use multithreaded_network_jo.Tools.StringEditor.{get_first_word, space}
use multithreaded_network_jo.Commands.{
  CcMode, issue_job, set_concurrency, stop, poll, exit, invalid, get_client_command_mode,
}

-- The keyword of each mode; no keyword for the invalid one.
abbrev pub Keyword : CcMode → Bytes → Type 0
Keyword issue_job w = w ≡ codes "issueJob"
Keyword set_concurrency w = w ≡ codes "setConcurrency"
Keyword stop w = w ≡ codes "stop"
Keyword poll w = w ≡ codes "poll"
Keyword exit w = w ≡ codes "exit"
Keyword invalid w =
    (w ≢ codes "issueJob")
    × (w ≢ codes "setConcurrency")
    × (w ≢ codes "stop")
    × (w ≢ codes "poll")
    × (w ≢ codes "exit")

mode-Keyword :
    (command : Bytes) → Keyword (get_client_command_mode command) (get_first_word command space)
unfolding get_client_command_mode
mode-Keyword command =
    let w = get_first_word command space in
    ground (
      arith,
      same_text_iff w (codes "issueJob"),
      same_text_iff w (codes "setConcurrency"),
      same_text_iff w (codes "stop"),
      same_text_iff w (codes "poll"),
      same_text_iff w (codes "exit"),
    )

invalid_mode :
    (command : Bytes)
    → Keyword invalid (get_first_word command space)
    → get_client_command_mode command ≡ invalid
unfolding get_client_command_mode
invalid_mode command h =
    let w = get_first_word command space in
    ground (
      arith,
      same_text_iff w (codes "issueJob"),
      same_text_iff w (codes "setConcurrency"),
      same_text_iff w (codes "stop"),
      same_text_iff w (codes "poll"),
      same_text_iff w (codes "exit"),
    )

mode_of_Keyword :
    (command : Bytes) (m : CcMode)
    → Keyword m (get_first_word command space)
    → get_client_command_mode command ≡ m
unfolding get_client_command_mode same_text
mode_of_Keyword command issue_job h = rw (h, get_client_command_mode)
mode_of_Keyword command set_concurrency h = rw (h, get_client_command_mode)
mode_of_Keyword command stop h = rw (h, get_client_command_mode)
mode_of_Keyword command poll h = rw (h, get_client_command_mode)
mode_of_Keyword command exit h = rw (h, get_client_command_mode)
mode_of_Keyword command invalid h = invalid_mode command h

-- The mode of a command is `m` exactly when its first word is the keyword of `m`: one keyword for
-- each of the five modes, and none of the five for the invalid mode.
pub mode_iff_Keyword :
    (command : Bytes) (m : CcMode)
    → (get_client_command_mode command ≡ m) ↔ Keyword m (get_first_word command space)
mode_iff_Keyword command m = (
  λ e. subst (λ k. Keyword k (get_first_word command space)) e (mode-Keyword command),
  mode_of_Keyword command m,
)
