-- ===== src/Manager/Sink.antt =====
-- pkg/lierc/events.go and connection.go: what a line from the server makes a client publish, and the
-- manager as its sink. A handler that closes the socket does so outside of the manager.
use lierc.Base.{ℕ, List, [], ◌∷◌, Option, none, some, Text}
use lierc.Unicode.{Unicode}
use lierc.Irc.{IrcGo, Message, new_irc_message}
use lierc.Client.{Client, ConfigChange, MultiMessage}
use lierc.Events.{Effects, annotate}
use lierc.Events.Handlers.{handle}
use lierc.Manager.{Object, Manager, ClientMessage, message_if, publish_multi, config_change}
use lierc.Manager.Requests.{client_send, set_client, update_object}

-- What onLine publishes: nothing for a line that irc-go cannot parse.
unfoldable pub line_message : ⦃g : IrcGo⦄ → ℕ → Option Message → Client → Option ClientMessage
unfolding annotate new_irc_message
line_message now none c = none
line_message now (some m) c =
    some (record { id = c.id; message = annotate c (new_irc_message now m) })

-- onLine
unfoldable pub on_line : ⦃g : IrcGo⦄ → ℕ → Option Message → Client → Manager → Manager
unfolding line_message message_if
on_line now parsed c m = message_if (line_message now parsed c) m

unfoldable pub publish_changes : List ConfigChange → Manager → Manager
unfolding config_change
publish_changes [] m = m
publish_changes (change ∷ rest) m = publish_changes rest (config_change change m)

unfoldable pub publish_multi_if : Option MultiMessage → Manager → Manager
unfolding publish_multi
publish_multi_if none m = m
publish_multi_if (some e) m = publish_multi e m

-- publishEffects
unfoldable pub publish_effects : Effects → Manager → Manager
unfolding publish_changes publish_multi_if
publish_effects e m = publish_changes e.changes (publish_multi_if e.multi m)

-- The lines that a handler passes to Send.
unfoldable pub send_lines : List Text → Object → Object
unfolding client_send
send_lines [] o = o
send_lines (line ∷ rest) o = send_lines rest (client_send line o).0

-- The callback of addHandlers, for a message of connection `serial` of client n.
unfoldable pub callback :
    ⦃u : Unicode⦄ ⦃g : IrcGo⦄ → ℕ → ℕ → Message → ℕ → Option Object → Manager → Manager
unfolding publish_effects send_lines set_client update_object
callback serial now message n none m = m
callback serial now message n (some o) m =
    let (c, e) = handle serial now o.attempts.client message in
    publish_effects e (update_object n (send_lines e.sends (set_client c o)) m)
