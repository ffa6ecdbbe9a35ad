-- ===== src/Tests/Network.antt =====
-- Frames, messages, buffers and the client's session on a kernel that takes a byte at a time.
use fury_clash.Prelude.{
  ℕ, ◌+◌, ◌-◌, ◌≡◌, refl, ◌≤◌, pos, negsuc, true, false, List, [], ◌∷◌, ◌++◌, length, replicate,
  take, drop, some, arith,
}
use fury_clash.Prelude.Text.{codes, after_match, strip_prefix, print_int, digits_of}
use fury_clash.Network.Frame.{
  ws_encode_frame, ws_parse_frame, WsFrame, parsed, size_mod, be_length, length_field, parse_body,
  frame_header, mask_key, mask_from, xorshift32, unmask,
}
use fury_clash.Network.Frame.RoundTrip.{ws_parse-encode}
use fury_clash.Network.Frame.Bounds.{ws_parse-Fits, ws_parse_wraps}
use fury_clash.Network.Json.{json_int, quoted_key}
use fury_clash.Network.Json.Reads.{json_int-print}
use fury_clash.Network.Rollback.{rollback_init}
use fury_clash.Network.Client.{net_ready, net_error, hs_open, Session, ws_send, with_state}
use fury_clash.Network.Client.Connect.{configured_client}
use fury_clash.Network.Client.Receive.{frames_loop, read_socket, net_client_receive}
use fury_clash.Network.Client.Sending.{ws_send-prefix, ws_send-whole}
use fury_clash.Network.Client.Loop.{Arrives}
use fury_clash.Network.Client.Moves.{
  frames_loop_unique, whole_loop, whole_loop-turn, net_client_receive-Arrives,
}
use fury_clash.Network.Serializer.{ByteBuf, bbuf_write_u32, bbuf_read_u32}
use fury_clash.Network.Serializer.Wide.{bbuf_read_u32-write}
use fury_clash.Network.InputBuffer.{
  InputBuffer, ibuf_put, ibuf_get, ibuf_is_confirmed, ibuf_get-put_same,
}
use fury_clash.Tests.Machines.{input_log, slow_kernel, slow_kernel-IsSocket}

abbrev a_frame : List ℕ
a_frame = ws_encode_frame 7 (3 ∷ 1 ∷ 4 ∷ [])

length-a_frame : length a_frame ≡ 9
unfolding ws_encode_frame frame_header mask_key mask_from xorshift32
length-a_frame = refl

ws_parse-encode_example :
    (f : WsFrame) × (ws_parse_frame (a_frame ++ (130 ∷ [])) 10 ≡ some (parsed f))
    × (f.opcode ≡ 2)
    × (take f.plen (drop f.payload f.rbuf) ≡ 3 ∷ 1 ∷ 4 ∷ [])
    × (f.consumed ≡ pos (length a_frame))
    × (drop (length a_frame) f.rbuf ≡ 130 ∷ [])
ws_parse-encode_example =
    ws_parse-encode 7 (3 ∷ 1 ∷ 4 ∷ []) (130 ∷ []) 10 (omega arith) (omega (arith, length-a_frame))

-- a text frame of two bytes, with a third byte behind it
abbrev two_bytes : WsFrame
two_bytes = record {
  opcode = 1;
  payload = 2;
  plen = 2;
  consumed = pos 4;
  rbuf = 129 ∷ 2 ∷ 20 ∷ 21 ∷ 22 ∷ [];
}

two_bytes_parse : ws_parse_frame (129 ∷ 2 ∷ 20 ∷ 21 ∷ 22 ∷ []) 5 ≡ some (parsed two_bytes)
unfolding ws_parse_frame length_field parse_body unmask
two_bytes_parse = refl

ws_parse-Fits_example : (pos 4 ≡ pos (2 + 2)) × (2 + 2 ≤ 5)
ws_parse-Fits_example = ws_parse-Fits (129 ∷ 2 ∷ 20 ∷ 21 ∷ 22 ∷ []) 5 two_bytes_parse (omega arith)

-- the eight bytes of 2 ^ 64 - 4
abbrev huge : List ℕ
huge = 255 ∷ 255 ∷ 255 ∷ 255 ∷ 255 ∷ 255 ∷ 255 ∷ 252 ∷ []

huge_length : be_length (130 ∷ 127 ∷ huge) 8 2 0 ≡ some (size_mod - 10 + 6)
unfolding be_length
huge_length = refl

ws_parse_wraps_example :
    (f : WsFrame) × (ws_parse_frame (130 ∷ 127 ∷ huge) 10 ≡ some (parsed f))
    × (f.consumed ≡ pos 6)
    × (f.plen ≡ size_mod - 10 + 6)
ws_parse_wraps_example =
    ws_parse_wraps 130 6 10 huge (omega arith) (omega arith) (omega arith) (omega arith) huge_length

abbrev end_json : List ℕ
end_json = codes "{\"winnerSlot\":-1,\"p1RoundsWon\":2}"

winner_found :
    after_match (quoted_key (codes "winnerSlot")) end_json
    ≡ some (print_int (negsuc 0) ++ (b',' ∷ codes "\"p1RoundsWon\":2}"))
unfolding after_match print_int strip_prefix digits_of
winner_found = refl

json_int-print_example : json_int end_json (codes "winnerSlot") (pos 7) ≡ some (negsuc 0)
json_int-print_example =
    json_int-print end_json (codes "winnerSlot") (codes "\"p1RoundsWon\":2}") (pos 7) (negsuc 0)
      b',' winner_found refl (omega arith)

-- an open connection in NET_READY, with two frames in the buffer of which the second is incomplete
abbrev pub ready : Session slow_kernel input_log
ready = record {
  client =
      record (configured_client (some (codes "ws://host")) (some (codes "AB23CD"))
        (some (codes "AB23CDP1")) (pos 0)) {
          fd = pos 3;
          hs = hs_open;
          state = net_ready;
          rbuf = 130 ∷ 1 ∷ 23 ∷ 130 ∷ 5 ∷ [];
          rbuf_head = 5;
        };
  world = 1 ∷ [];
  ring = rollback_init input_log;
}

ws_send-prefix_example :
    (k : ℕ) × ((ws_send slow_kernel input_log (3 ∷ 1 ∷ 4 ∷ []) ready).world
      ≡ (1 ∷ []) ++ take k a_frame)
ws_send-prefix_example =
    ws_send-prefix slow_kernel input_log (λ w. w) slow_kernel-IsSocket (3 ∷ 1 ∷ 4 ∷ []) ready

ws_send-whole_example :
    (ws_send slow_kernel input_log (3 ∷ 1 ∷ 4 ∷ []) ready).world ≡ (1 ∷ []) ++ a_frame
ws_send-whole_example =
    ws_send-whole slow_kernel input_log (λ w. w) slow_kernel-IsSocket (λ fd x b w. (0, refl))
      (3 ∷ 1 ∷ 4 ∷ []) ready (omega arith) refl (omega arith)

frames_loop_unique_example :
    frames_loop slow_kernel input_log 100 ready ≡ whole_loop slow_kernel input_log ready
frames_loop_unique_example =
    frames_loop_unique slow_kernel input_log (λ s. whole_loop slow_kernel input_log s)
      (λ s. whole_loop-turn slow_kernel input_log s) 100 ready (omega arith)

-- the stream has ended
abbrev dropped : Session slow_kernel input_log
dropped = record ready { client = record (ready.client) { state = net_error } }

ready-dropped : net_client_receive slow_kernel input_log ready ≡ some dropped
unfolding net_client_receive read_socket with_state configured_client
ready-dropped = refl

net_client_receive-Arrives_example : Arrives net_ready net_error
net_client_receive-Arrives_example =
    net_client_receive-Arrives slow_kernel input_log ready ready-dropped

abbrev five_bytes : ByteBuf
five_bytes = record { bytes = 0 ∷ 0 ∷ 0 ∷ 0 ∷ 0 ∷ []; len = 1; cap = 5; pos = 0 }

bbuf_read_u32-write_example :
    (b' : ByteBuf) × (bbuf_write_u32 4294901762 five_bytes ≡ some b')
    × (b'.len ≡ 5)
    × (bbuf_read_u32 (record b' { pos = 1 }) ≡ some (4294901762, record b' { pos = 5 }))
bbuf_read_u32-write_example =
    bbuf_read_u32-write 4294901762 five_bytes (omega arith) (omega arith, omega arith)

abbrev at_100 : InputBuffer
at_100 = record { inputs = replicate 256 0; confirmed = replicate 256 false; base_frame = pos 100 }

ibuf_get-put_same_example :
    (ibuf_get (pos 358) (ibuf_put (pos 102) 5 at_100) ≡ 5)
    × (ibuf_is_confirmed (pos 358) (ibuf_put (pos 102) 5 at_100) ≡ true)
ibuf_get-put_same_example = ibuf_get-put_same at_100 100 2 258 5 (refl, refl) refl refl
