-- ===== src/Server/Tests.antt =====
-- The server on concrete messages.
use n_dhcp.Base.{
  if◌then◌else◌, ◌==◌, ℕ, zero, suc, ◌≡◌, refl, true, false, Option, some, List, [], ◌∷◌, ◌++◌,
  arith, AreBytes, append-AreBytes, replicate, replicate-AreBytes,
}
use n_dhcp.Protocol.{Error, Result, ok, err, magic, again}
use n_dhcp.Protocol.Opt
use n_dhcp.Protocol.Message
use n_dhcp.Incoming.{Incoming, new, has_magic}
use n_dhcp.Incoming.Refine.{Parsed, new-Parsed, starts_magic}
use n_dhcp.Outgoing.{Outgoing}
use n_dhcp.Connection.Build.{Gives}
use n_dhcp.Server.{SConnection, verify_incoming, server_dispatch, offer_new, ack_new, nak_new}
use n_dhcp.Server.Classify.{Verdict, verify_incoming-Judges}
use n_dhcp.Server.Replies.{IsReply, replies-Gives}
use n_dhcp.Server.Rounds.{IsParsed, Ends, server_dispatch-Ends}

-- A REQUEST for 10.0.0.1 that names a maximal size of 1500 bytes.
abbrev options : List ℕ
options =
    Opt.message_type ∷ 1 ∷ Message.request ∷ Opt.server_identifier ∷ 4 ∷ 10 ∷ 0 ∷ 0 ∷ 1
    ∷ Opt.maximum_message_size ∷ 2 ∷ 5 ∷ 220 ∷ Opt.option_end ∷ []

abbrev message : List ℕ
message = replicate 236 0 ++ (magic ++ options)

message-starts_magic : starts_magic message ≡ true
unfolding starts_magic has_magic
message-starts_magic = refl

message-AreBytes : AreBytes message
message-AreBytes =
    append-AreBytes (replicate 236 0) (magic ++ options) (replicate-AreBytes 236 0 (omega arith))
      (omega arith)

parsed : (i : Incoming) × (new true message ≡ some (ok i)) × Parsed message i
parsed = new-Parsed message (omega arith) (omega arith) message-starts_magic

abbrev server : SConnection
server = record { ifindex = 1; ip = some 167772161 }

verify_incoming-Judges_example :
    (r : Result Incoming) × (verify_incoming server parsed.0 false ≡ some r)
    × Verdict (some 167772161) false message parsed.0 r
verify_incoming-Judges_example = verify_incoming-Judges server false message parsed.0 parsed.2

replies-Gives_example :
    Gives IsReply (offer_new (λ k. true) parsed.0 167772161 167772170 3600)
    × Gives IsReply (ack_new (λ k. true) parsed.0 167772161 167772170 3600)
    × Gives IsReply (nak_new (λ k. true) parsed.0 167772161)
replies-Gives_example =
    replies-Gives (λ k. true) message parsed.0 parsed.2 message-AreBytes (omega arith) (omega arith)
      167772161 167772170 3600

-- One message, and then nothing.
abbrev one_message : ℕ → Result (Incoming × ℕ)
one_message zero = ok (parsed.0, 0xffffffff)
one_message (suc k) = err again

one_message-IsParsed : (k : ℕ) → IsParsed (one_message k)
one_message-IsParsed zero = (message, parsed.2)
one_message-IsParsed (suc k) = tt

server_dispatch-Ends_example :
    (r : Option Error) × (server_dispatch server one_message ≡ some r) × Ends one_message 0 128 r
server_dispatch-Ends_example = server_dispatch-Ends server one_message one_message-IsParsed

-- The request of a client that claims a hardware address of 33 bytes.
abbrev long_address : Incoming
long_address = record parsed.0 {
  message = record { size = 300; byte = λ j. if j == 2 then 33 else 0 };
}
