-- ===== src/Mp4/Tests.antt =====
-- src/lib/mp4-duration.ts: a small file, its duration, and the theorems at that file.
use open_live.Prelude.{ℕ, List, [], ◌∷◌, none, some, ◌≡◌, refl, arith, length, map}
use open_live.Mp4.{moov, mvhd, boxes}
use open_live.Mp4.Fragments.{mp4_duration_ms}
use open_live.Mp4.Scanner.{Limits, new_scanner, push, push_all, finish}
use open_live.Mp4.Push.{push-scanned, finish-cut, scanned, new_scanner-IsReady}
use open_live.Mp4.Memory.{IsBounded, push_all-IsBounded}
use open_live.Mp4.Written.{Payload, box_bytes, file_bytes, layout, boxes-file_bytes}

abbrev ftyp : ℕ
ftyp = 0x66747970

-- A movie header: 90 ticks of a 30th of a second.
abbrev header_payload : Payload
header_payload = record {
  kind = mvhd;
  bytes = 0 ∷ 0 ∷ 0 ∷ 0 ∷ 0 ∷ 0 ∷ 0 ∷ 0 ∷ 0 ∷ 0 ∷ 0 ∷ 0 ∷ 0 ∷ 0 ∷ 0 ∷ 30 ∷ 0 ∷ 0 ∷ 0 ∷ 90 ∷ [];
}

abbrev payloads : List Payload
payloads =
    record { kind = ftyp; bytes = 105 ∷ 115 ∷ 111 ∷ [] }
    ∷ record { kind = moov; bytes = box_bytes header_payload }
    ∷ []

abbrev file : List ℕ
file = file_bytes payloads

abbrev single : ℕ → List ℕ
single b = b ∷ []

abbrev bytewise : List (List ℕ)
bytewise = map single file

abbrev limits : Limits
limits = record { max_moov_bytes = 64; max_moof_bytes = 32 }

abbrev small_limits : Limits
small_limits = record { max_moov_bytes = 32; max_moof_bytes = 32 }

whole_file : mp4_duration_ms file ≡ some 3000
unfolding mp4_duration_ms
whole_file = refl

streamed_file : finish (push limits file new_scanner) ≡ some 3000
unfolding finish push
streamed_file = refl

-- A `moov` over the limit makes the duration unknown.
oversized : finish (push small_limits file new_scanner) ≡ none
unfolding finish push
oversized = refl

push-scanned_example : push limits file new_scanner ≡ scanned limits file new_scanner
push-scanned_example = push-scanned limits file new_scanner new_scanner-IsReady

finish-cut_example :
    finish (push_all limits bytewise new_scanner) ≡ finish (push_all limits (file ∷ []) new_scanner)
finish-cut_example = finish-cut limits bytewise (file ∷ []) refl

push_all-IsBounded_example : IsBounded limits (push_all limits bytewise new_scanner).machine
push_all-IsBounded_example = push_all-IsBounded limits bytewise

boxes-file_bytes_example : boxes file 0 (length file) ≡ layout 0 payloads
boxes-file_bytes_example = boxes-file_bytes payloads (omega arith)
