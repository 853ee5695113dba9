-- ===== src/Channel/Tests.antt =====
-- Runs and instances for pkg/lierc/channel.go.
use lierc.Base.{false, ◌≡◌, refl, text, contains, distinct}
use lierc.Channel.{apply_mode, add_mode, remove_mode}
use lierc.Channel.Modes.{contains-apply_mode}

apply_mode_run : apply_mode b'-' b'o' (text "vo") ≡ text "v"
unfolding apply_mode add_mode remove_mode contains
apply_mode_run = refl

contains-apply_mode_example : contains b'o' (apply_mode b'-' b'o' (text "vo")) ≡ false
unfolding contains distinct
contains-apply_mode_example = contains-apply_mode b'-' b'o' b'o' (text "vo") refl
