-- ===== src/Tests/Copying.antt =====
-- `writeStream` of src/SoapySDR/Streaming.cpp with two channels and buffers of three bytes.
use osmo_fl2k.Prelude.{
  ℕ, zero, suc, ◌+◌, ◌≤◌, ◌<◌, List, [], ◌∷◌, some, true, ltb, ◌≡◌, refl, arith, length, get_elem?,
}
use osmo_fl2k.Soapy.{int16, Buffer, Soapy, elems}
use osmo_fl2k.Soapy.Write.{eighth, byte_of_sample, bytes_of, finish, write_rest, write_stream}
use osmo_fl2k.Soapy.Copied.{mem, CanCopy, Copied}
use osmo_fl2k.Soapy.Copied.Channels.{taken, write_rest_copies}
use osmo_fl2k.Device.{buf_len}
use osmo_fl2k.Soapy.Copied.Call.{IsWhole, acquired, first_part, write_stream_copies}
use osmo_fl2k.Tests.Scenario.{of_length}
use osmo_fl2k.Tests.Ring.{tiny}

abbrev blank : Buffer
blank = record { tick = 0; red = 1 ∷ 1 ∷ 1 ∷ []; green = 2 ∷ 2 ∷ 2 ∷ []; blue = 3 ∷ 3 ∷ 3 ∷ [] }

abbrev stream : Soapy
stream = record tiny {
  tx_format = int16;
  channels = 0 ∷ 2 ∷ [];
  buffs = blank ∷ blank ∷ [];
  buffered_elems = 3;
}

abbrev inputs : List (List ℕ)
inputs = (80 ∷ 160 ∷ []) ∷ [] ∷ (240 ∷ 320 ∷ []) ∷ []

samples :
    (d : ℕ)
    → mem d stream.channels ≡ true
    → (input : List ℕ) × (get_elem? inputs d ≡ some input) × (2 ≤ length input)
samples zero m = (80 ∷ 160 ∷ [], refl, omega arith)
samples (suc zero) m = cc
samples (suc (suc zero)) m = (240 ∷ 320 ∷ [], refl, omega arith)
samples (suc (suc (suc d))) m = absurd (ground arith)

positions :
    (d : ℕ)
    → mem d stream.channels ≡ true
    → get_elem? stream.current_buffs d ≡ some (record { handle = 0; offset = 0 })
positions zero m = refl
positions (suc zero) m = refl
positions (suc (suc zero)) m = refl
positions (suc (suc (suc d))) m = absurd (ground arith)

room : (d : ℕ) → d < 3 → 0 + 2 ≤ length (bytes_of d blank)
room zero l = omega arith
room (suc zero) l = omega arith
room (suc (suc zero)) l = omega arith
room (suc (suc (suc d))) l = absurd (omega arith)

can_copy : CanCopy inputs 2 0 0 stream.channels stream blank
can_copy = record {
  below = λ d m. ground arith;
  samples = samples;
  positions = positions;
  at_hand = refl;
  room = room;
}

write_rest_copies_example :
    (s' : Soapy) × (b' : Buffer) × (write_rest eighth inputs 2 stream
      ≡ some (finish (taken 2 stream) s'))
    × Copied inputs (taken 2 stream) 0 0 eighth stream.channels stream s' blank b'
    × ((finish (taken 2 stream) s').stream.buffs ≡ s'.buffs)
    × ((finish (taken 2 stream) s').result ≡ elems (taken 2 stream))
    × ((finish (taken 2 stream) s').more_fragments ≡ ltb 2 stream.buffered_elems)
unfolding byte_of_sample
write_rest_copies_example =
    write_rest_copies eighth eighth inputs 2 0 0 stream blank refl (refl, (refl, tt)) can_copy

-- A buffer of full length, and a ring of two of them.
abbrev whole : Buffer
whole =
    let bytes = (of_length buf_len 7).0 in
    record { tick = 0; red = bytes; green = bytes; blue = bytes }

abbrev idle : Soapy
idle = record stream { buffs = whole ∷ whole ∷ []; buffered_elems = 0 }

whole-IsWhole : IsWhole whole
whole-IsWhole zero l = (of_length buf_len 7).1
whole-IsWhole (suc zero) l = (of_length buf_len 7).1
whole-IsWhole (suc (suc zero)) l = (of_length buf_len 7).1
whole-IsWhole (suc (suc (suc d))) l = absurd (omega arith)

write_stream_copies_example :
    (s' : Soapy) × (b' : Buffer) × (write_stream [] eighth idle inputs 2
      ≡ some (finish (first_part 2) s'))
    × Copied inputs (first_part 2) 0 0 eighth idle.channels (acquired idle whole) s' whole b'
    × ((finish (first_part 2) s').stream.buffs ≡ s'.buffs)
    × ((finish (first_part 2) s').result ≡ elems (first_part 2))
unfolding byte_of_sample
write_stream_copies_example =
    write_stream_copies idle whole refl refl (λ e. omega arith) refl refl eighth eighth inputs 2
      refl (refl, (refl, tt)) refl refl whole-IsWhole samples
