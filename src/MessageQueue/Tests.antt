-- ===== src/MessageQueue/Tests.antt =====
-- Concrete runs of cw07/assignment/server.c.
use agh_operating_systems.Prelude.{
  ℕ, ◌+◌, All, ◌≡◌, refl, false, List, [], ◌∷◌, ◌++◌, none, some, map, arith,
}
use agh_operating_systems.CString.{Bytes, decimal, bytes, strncmp_eq}
use agh_operating_systems.MessageQueue.Server.{
  Message, init, broadcast_text, broadcast_message, broadcast_from, handle_message, register, serve,
}
use agh_operating_systems.MessageQueue.Client.{
  init_message, send_messages, listen, receive_messages, client_line,
}
use agh_operating_systems.MessageQueue.Inbox.{responses, inbox, others, Avoids}
use agh_operating_systems.MessageQueue.Delivery.{
  chat_line, listen-others, IsChat, heard, listen-send_messages,
}
use agh_operating_systems.MessageQueue.Registry.{Table, serve-Table}

abbrev joining : ℕ → Message
joining q = record { pid = 700; queue = some q; text = bytes "INIT" }

abbrev hello : Message
hello = record { pid = 1; queue = none; text = bytes "hello" }

abbrev three : List Message
three = joining 31 ∷ joining 32 ∷ joining 33 ∷ []

serve-Table_example : Table (serve three init)
serve-Table_example = serve-Table three

not_init : strncmp_eq hello.text (bytes "INIT") 4 ≡ false
unfolding strncmp_eq
not_init = refl

-- The two others get the text.
hello_sent :
    (handle_message hello (serve three init)).1
    ≡ record { queue = 32; client_id = 1; text = bytes "Client 1: hello" }
      ∷ record { queue = 33; client_id = 1; text = bytes "Client 1: hello" }
      ∷ []
unfolding handle_message serve init register broadcast_message broadcast_from broadcast_text decimal
    strncmp_eq
hello_sent = refl

-- Two clients are there; the third joins with queue 33, and hears the first.
abbrev two : List Message
two = joining 31 ∷ joining 32 ∷ []

abbrev said : List Message
said = hello ∷ record { pid = 3; queue = none; text = bytes "mine" } ∷ joining 34 ∷ []

two-Avoids : All (Avoids 33) two
two-Avoids = ((λ e. absurd (ground arith)), ((λ e. absurd (ground arith)), tt))

two_count : (serve two init).client_count ≡ 2
unfolding handle_message serve init register strncmp_eq
two_count = refl

listen-others_example :
    listen (inbox 33 (responses (two ++ init_message 900 33 ∷ said) init))
    ≡ some (
      (serve two init).client_count + 1,
      map chat_line (others ((serve two init).client_count + 1) said),
    )
listen-others_example =
    listen-others 33 900 two said two-Avoids
      ((λ e. absurd (cc)), ((λ e. absurd (cc)), ((λ e. absurd (ground arith)), tt)))
      (omega (arith, two_count))

-- It prints one line.
third_hears :
    listen (inbox 33 (responses (two ++ init_message 900 33 ∷ said) init))
    ≡ some (3, (bytes "[Client] Client 1: hello" ++ 10 ∷ []) ∷ [])
unfolding listen inbox responses handle_message serve init init_message register broadcast_message
    broadcast_from broadcast_text decimal strncmp_eq receive_messages client_line
third_hears = refl

abbrev lines : List Bytes
lines = (bytes "hello" ++ 10 ∷ []) ∷ (bytes "bye" ++ 10 ∷ []) ∷ []

lines-IsChat : All (IsChat 1) lines
unfolding strncmp_eq decimal
lines-IsChat = ((refl, omega arith), ((refl, omega arith), tt))

listen-send_messages_example :
    listen (inbox 33 (responses (two ++ init_message 900 33 ∷ send_messages 1 none lines) init))
    ≡ some ((serve two init).client_count + 1, map (heard 1) lines)
listen-send_messages_example =
    listen-send_messages 33 900 1 none two lines two-Avoids (λ e. absurd (cc))
      (omega (arith, two_count)) (rw two_count refl) lines-IsChat
