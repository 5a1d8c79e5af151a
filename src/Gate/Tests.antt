-- ===== src/Gate/Tests.antt =====
-- Runs of the gate on small streams, and the theorems about it and its buffer at concrete inputs.
use fengnet.Base.{◌+◌, ◌<◌, ◌^◌, ℕ, ◌≡◌, refl, inl, inr, List, [], ◌∷◌, length, arith}
use fengnet.Databuffer.{ℤ, pos, negsuc, Databuffer, MessagePool, parse_header}
use fengnet.Databuffer.Read.{bytes, contents, Sized, Starts, IsBuffer}
use fengnet.Databuffer.Packets.{Packets, stream}
use fengnet.Databuffer.Codes.{two_bytes, four_bytes, headers_parsed, two_byte_code}
use fengnet.Gate.{Connection, Gate, not_positive, dispatch_message}
use fengnet.Gate.Forward.{Serves}
use fengnet.Gate.Chunks.{joined, dispatch_all, AllSent, dispatch_all-AllSent}
use fengnet.Gate.Always.{Ends, dispatch_message-Ends}
use fengnet.Gate.Stuck.{Waits, negative_header-Waits}

abbrev text : ℤ → List ℕ
text id = 100 ∷ []

abbrev pool : MessagePool
pool = record { freelist = 1; pool = 1 }

-- Two blocks of three bytes, of which the first byte is read.
abbrev held : Databuffer
held = record {
  header = pos 0;
  offset = 1;
  size = 5;
  messages =
      record { buffer = 9 ∷ 0 ∷ 2 ∷ []; size = 3 }
      ∷ record { buffer = 7 ∷ 8 ∷ 0 ∷ []; size = 3 }
      ∷ [];
}

held-IsBuffer : IsBuffer held
unfolding Sized Starts bytes
held-IsBuffer = record { sized = (refl, (refl, tt)); starts = omega arith; counted = refl }

-- What is held begins the stream of two packets.
abbrev two_packets : List (List ℕ)
two_packets = (7 ∷ 8 ∷ []) ∷ (5 ∷ []) ∷ []

two_packets-Packets : Packets 65536 two_packets
unfolding Packets
two_packets-Packets = (omega arith, omega arith, (omega arith, omega arith, tt))

abbrev gate : Gate
gate = record { watchdog = 0; broker = 0; client_tag = 3; header_size = 2; mp = pool }

abbrev connection : Connection
connection = record { id = pos 4; agent = 11; client = 12; buffer = held }

dispatch_message-Ends_example :
    Ends gate connection (dispatch_message text (pos 4) gate connection (255 ∷ 0 ∷ 7 ∷ []) 3)
dispatch_message-Ends_example =
    dispatch_message-Ends text (pos 4) gate connection (255 ∷ 0 ∷ 7 ∷ []) (omega arith)
      held-IsBuffer

abbrev fresh : Connection
fresh = record connection {
  buffer = record { header = pos 0; offset = 0; size = 0; messages = [] };
}

fresh-IsBuffer : IsBuffer fresh.buffer
unfolding Sized Starts bytes
fresh-IsBuffer = record { sized = tt; starts = refl; counted = refl }

fresh-Serves : Serves gate fresh
unfolding not_positive
fresh-Serves = record { opened = refl; some_route = inr (inl (omega arith)) }

-- A header and a packet are cut in two.
abbrev blocks : List (List ℕ)
blocks = (0 ∷ []) ∷ (2 ∷ 7 ∷ []) ∷ (8 ∷ 0 ∷ 1 ∷ 5 ∷ []) ∷ []

blocks-joined : joined blocks ≡ stream two_byte_code two_packets
unfolding joined stream
blocks-joined = refl

dispatch_all-AllSent_example :
    AllSent text
      (pos 4)
      2
      65536
      two_byte_code
      (omega arith)
      gate
      fresh
      two_packets
      (dispatch_all text (pos 4) blocks gate fresh)
dispatch_all-AllSent_example =
    dispatch_all-AllSent text (pos 4) 2 65536 two_byte_code (omega arith) blocks gate fresh
      two_packets refl fresh-Serves fresh-IsBuffer refl nothing two_packets-Packets blocks-joined
  where
    nothing : contents fresh.buffer ≡ []
    nothing = unfold bytes in refl

headers_parsed_example :
    (parse_header 2 (two_bytes 515) ≡ pos 515) × (parse_header 4 (four_bytes 66051) ≡ pos 66051)
headers_parsed_example = headers_parsed 515 66051 (omega arith) (omega arith)

abbrev negative : Connection
negative = record connection {
  buffer = record { header = negsuc 0; offset = 0; size = 0; messages = [] };
}

negative_parsed : parse_header 4 (255 ∷ 255 ∷ 255 ∷ 255 ∷ []) ≡ negsuc 0
unfolding parse_header
negative_parsed = refl

negative-IsBuffer : IsBuffer negative.buffer
unfolding Sized Starts bytes
negative-IsBuffer = record { sized = tt; starts = refl; counted = refl }

negative_fits : negative.buffer.size + length (joined blocks) < 2 ^ 31
unfolding joined
negative_fits = omega arith

negative_header-Waits_example :
    Waits gate negative 0 (joined blocks) (dispatch_all text (pos 4) blocks gate negative)
negative_header-Waits_example =
    negative_header-Waits text (pos 4) blocks gate negative 0 negative-IsBuffer refl negative_fits
