-- ===== src/Stream/Tests.antt =====
-- The streams of src/lz4.cc at concrete inputs, over a codec that copies.
pub mod Plain
use arthur.Stream.Writer.Effects.{frame}
use arthur.Stream.Writer.Blocks.{Stored}
use arthur.Stream.Pieces.{pieces}
use arthur.Stream.BlockType
use arthur.Base.{◌∙◌, ◌==◌, ◌&&◌, not, if◌then◌else◌}
use arthur.Base.Results.{Result, Error, err}
use arthur.Stream.Header.{tail_mark}
use arthur.Stream.Writer.{write_tail_mark}
use arthur.Stream.Reader.{verify_physical_eof}
use arthur.Stream.TailMark.{verify_physical_eof-write_tail_mark}
use arthur.Stream.ProcFile.{serialized_size}
use arthur.Stream.Room.{Done, write_block_room}
use arthur.Stream.Room.Records.{put_file_room}
use arthur.Stream.Reader.Damage.{IsRefused, read_block_burst}
use arthur.Stream.Reader.Answers.{Answers, IsBounded, get_file-Answers}
use arthur.Stream.Header.{block_size}
use arthur.Stream.Codec.{ring_offset}
use arthur.Stream.Reader.{read_block, next_block}
use arthur.Stream.Reader.Frames.{holding, read_block-frame}
use arthur.Stream.Writer.Calls.{write_block_ok}
use arthur.Base.{some, sym, append-nil}
use arthur.Base.{ℕ, zero, suc, ◌+◌, ◌≤◌, ◌<◌, ◌≡◌, refl, sym, ap, ◌∙◌, arith, Bool, true, false}
use arthur.Base.{Option, none, some, [], ◌∷◌, ◌++◌, Bytes, length, drop, All}
use arthur.Base.Words.{IsByte}
use arthur.Base.Files.{OutFile, InFile}
use arthur.Base.Results.{ok, err}
use arthur.Stream.ProcFile.{ProcFile, IsProcFile}
use arthur.Stream.Writer.{
  Writer, open_writer, flush, put_file, write_raw, write_block, write_blocks, compress, fill, store,
  put, put_raw, put_checksum, seal,
}
use arthur.Stream.Block
use arthur.Stream.ProcFile.{memory_of}
use Prim.Native.Nat.{bit_xor}
use arthur.Base.Lists.{get_or}
use arthur.Base.{◌≢◌}
use arthur.Stream.Header.{BlockHeader, header_bytes, read_header, make_header, is_tail_mark}
use arthur.Stream.Header.RoundTrip.{IsHeader, read_header-header_bytes, is_tail_mark-make_header}
use arthur.Stream.Crc.{crc32_update, table, rounds, block_checksum}
use arthur.Stream.Crc.Bitwise.{crc32_bitwise, crc32_update-bitwise}
use arthur.Stream.Crc.Detection.{block_checksum_burst, block_checksum_header}
use arthur.Base.Words.{le_bytes}
use arthur.Base.Files.{fwrite}
use arthur.Stream.Writer.Calls.{IsWriting, flush_drains}
use arthur.Stream.Reader.{Reader, open_reader}
use arthur.Stream.Reader.GetFile.{get_file}
use arthur.Stream.Reader.Files.{Caught}
use arthur.Stream.Transfer.{get_file-put_file}
use arthur.Stream.Tests.Plain.{plain, plain_laws}

abbrev note : ProcFile
note = record { f_size = 3; f_pid = 7; f_type = 2; f_data = 65 ∷ 66 ∷ 67 ∷ [] }

note-IsProcFile : IsProcFile note
note-IsProcFile = record {
  size_fits = omega arith;
  pid_fits = omega arith;
  type_fits = omega arith;
  holds = refl;
}

note_bytes : All IsByte note.f_data
note_bytes = (omega arith, (omega arith, (omega arith, tt)))

abbrev fresh : Writer (Unit {0})
fresh = open_writer tt (record { written = []; room = 1000; failed = false })

fresh-IsWriting : IsWriting fresh
fresh-IsWriting = record { is_open = refl; ring = refl; at_start = refl; sound = refl }

-- Its record: the size, and one block without a checksum.
abbrev note_blocks : Bytes
note_blocks = 134 ∷ 1 ∷ 0 ∷ 3 ∷ 0 ∷ 0 ∷ 0 ∷ 7 ∷ 0 ∷ 0 ∷ 0 ∷ 2 ∷ 65 ∷ 66 ∷ 67 ∷ []

abbrev noted : Writer (Unit {0})
noted = record fresh {
  file = record { written = 12 ∷ 0 ∷ 0 ∷ 0 ∷ note_blocks; room = 981; failed = false };
  block_index = 1;
  size_real = 12;
  size_file = 19;
}

nothing_buffered : flush plain fresh ≡ (ok tt, fresh)
unfolding flush
nothing_buffered = refl

put_note : put_file plain note fresh ≡ (ok 12, noted)
unfolding put_file flush write_raw write_block write_blocks compress fill store put put_raw
    put_checksum seal Block.write header_bytes le_bytes memory_of fwrite
put_note = refl

-- A reader at the start of that file.
abbrev at_note : Reader (Unit {0})
at_note = open_reader tt (record {
  content = noted.file.written;
  pos = 0;
  broken = false;
  at_eof = false;
  failed = false;
})

at_note-Caught :
    Caught plain_laws fresh.enc fresh.checksums
      (drop (length fresh.file.written) noted.file.written ++ [])
      at_note
at_note-Caught = record {
  reading = record { is_open = refl; clean = refl; before_tail = refl };
  next = refl;
  synced = plain_laws.synced_init;
  checksums = refl;
}

get_file-put_file_example :
    (r' : Reader (Unit {0})) × (get_file plain at_note ≡ (ok note, r'))
    × Caught plain_laws noted.enc noted.checksums [] r'
get_file-put_file_example =
    get_file-put_file plain_laws note fresh fresh noted 12 at_note [] note-IsProcFile note_bytes
      fresh-IsWriting nothing_buffered put_note at_note-Caught

abbrev some_header : BlockHeader
some_header = record { prev_cont = 1; block_type = 3; size = 12 }

some_header-IsHeader : IsHeader some_header
some_header-IsHeader = record {
  cont_fits = omega arith;
  type_fits = omega arith;
  size_fits = omega arith;
}

is_tail_mark-make_header_example : is_tail_mark (make_header 0 15 65809) ≡ false
is_tail_mark-make_header_example = is_tail_mark-make_header 0 15 65809 (omega arith)

-- The check value of CRC-32, of the digits from 1 to 9.
abbrev digits : Bytes
digits = 49 ∷ 50 ∷ 51 ∷ 52 ∷ 53 ∷ 54 ∷ 55 ∷ 56 ∷ 57 ∷ []

check_value : bit_xor (crc32_update 0xffff_ffff digits) 0xffff_ffff ≡ 0xcbf4_3926
unfolding crc32_update table rounds
check_value = refl

abbrev two : Bytes
two = 49 ∷ 50 ∷ []

two_bytes : All IsByte two
two_bytes = (omega arith, (omega arith, tt))

crc32_update-bitwise_example : crc32_update 0xffff_ffff two ≡ crc32_bitwise 0xffff_ffff two
crc32_update-bitwise_example = crc32_update-bitwise 0xffff_ffff two two_bytes

abbrev changed : Bytes
changed = 49 ∷ 51 ∷ []

differ : two ≢ changed
differ e = absurd (omega (arith, ap (λ s. get_or s 1 0) e))

block_checksum_burst_example :
    block_checksum some_header (two ++ (two ++ two))
    ≢ block_checksum some_header (two ++ (changed ++ two))
block_checksum_burst_example =
    block_checksum_burst some_header two two changed two two_bytes two_bytes
      (omega arith, (omega arith, tt)) two_bytes (omega arith) refl differ

block_checksum_header_example :
    block_checksum some_header two ≢ block_checksum (record some_header { size = 13 }) two
block_checksum_header_example =
    block_checksum_header some_header (record some_header { size = 13 }) two some_header-IsHeader
      (record { cont_fits = omega arith; type_fits = omega arith; size_fits = omega arith })
      two_bytes (λ e. absurd (omega (arith, ap (λ (h : BlockHeader). h.size) e)))

flush_drains_example : IsWriting fresh × (fresh.block ≡ Block.empty)
flush_drains_example = flush_drains plain fresh fresh fresh-IsWriting nothing_buffered

-- A file of one block with its checksum.
abbrev two_frame : Bytes
two_frame = frame true 0 BlockType.file two two

abbrev at_two : Reader (Unit {0})
at_two =
    record (open_reader tt
      (record { content = two_frame; pos = 0; broken = false; at_eof = false; failed = false })) {
        checksums = true;
      }

two_back : plain.decompress tt (ring_offset plain 0) two block_size ≡ (some two, tt)
two_back = refl

read_block-frame_example : read_block plain at_two ≡ (
  ok (make_header 0 BlockType.file 2),
  holding plain (0 + length two_frame) two tt (next_block at_two),
)
read_block-frame_example =
    read_block-frame plain 0 BlockType.file two two [] tt at_two
      (record { is_open = refl; clean = refl; before_tail = refl }) (omega arith) two_bytes
      (omega arith) two_back (sym (append-nil two_frame))

abbrev after_two : Writer (Unit {0})
after_two = record fresh {
  file = record { written = 70 ∷ 0 ∷ 0 ∷ two; room = 995; failed = false };
  block_index = 1;
  size_real = 2;
  size_file = 5;
}

write_two : write_block plain two BlockType.file fresh ≡ (ok 2, after_two)
unfolding flush write_block write_blocks compress fill store put put_checksum seal Block.write
    header_bytes le_bytes fwrite
write_two = refl

write_block_ok_example :
    (out : Bytes) × Stored plain BlockType.file 0 (pieces 2 two) fresh out after_two
    × (2 ≡ length two)
write_block_ok_example =
    write_block_ok plain two BlockType.file fresh 2 after_two fresh-IsWriting refl write_two

abbrev roomy : Writer (Unit {0})
roomy = open_writer tt (record { written = []; room = 300000; failed = false })

note_rounds : length (pieces (serialized_size note) (memory_of note)) ≡ 1
unfolding pieces memory_of le_bytes
note_rounds = refl

put_file_room_example :
    (w' : Writer (Unit {0})) × (put_file plain note roomy ≡ (ok (serialized_size note), w'))
put_file_room_example =
    put_file_room plain_laws note roomy note-IsProcFile (omega arith)
      (record { is_open = refl; ring = refl; at_start = refl; sound = refl }) (omega arith)
      (omega (arith, note_rounds))

-- The data of the block was changed in its second byte.
abbrev damaged : Bytes
damaged =
    header_bytes (make_header 0 BlockType.file 2)
    ++ (changed ++ (le_bytes 4 (block_checksum (make_header 0 BlockType.file 2) two) ++ []))

abbrev at_damaged : Reader (Unit {0})
at_damaged =
    record (open_reader tt
      (record { content = damaged; pos = 0; broken = false; at_eof = false; failed = false })) {
        checksums = true;
      }

changed_back : plain.decompress tt (ring_offset plain 0) changed block_size ≡ (some changed, tt)
changed_back = refl

abbrev fifty : Bytes
fifty = 50 ∷ []

abbrev fifty_one : Bytes
fifty_one = 51 ∷ []

byte_differs : fifty ≢ fifty_one
byte_differs e = absurd (omega (arith, ap (λ s. get_or s 0 0) e))

read_block_burst_example : IsRefused plain (read_block plain at_damaged)
read_block_burst_example =
    read_block_burst plain 0 BlockType.file changed (49 ∷ []) (50 ∷ []) (51 ∷ []) [] [] tt
      at_damaged (record { is_open = refl; clean = refl; before_tail = refl }) refl (omega arith)
      ((omega arith, tt), (omega arith, tt), (omega arith, tt), tt) (omega arith) refl byte_differs
      changed_back refl

get_file-Answers_example : Answers IsBounded (get_file plain at_note)
get_file-Answers_example = get_file-Answers plain at_note refl

abbrev no_bytes : Bytes
no_bytes = []

-- A file that ends with its tail mark.
abbrev at_tail : Reader (Unit {0})
at_tail = open_reader tt (record {
  content = header_bytes tail_mark;
  pos = 0;
  broken = false;
  at_eof = false;
  failed = false;
})

marked : drop 0 (write_tail_mark plain fresh).1.file.written ≡ header_bytes tail_mark
unfolding write_tail_mark write_raw put_raw fwrite header_bytes le_bytes
marked = refl

verify_physical_eof-write_tail_mark_example :
    ((write_tail_mark plain fresh).0 ≡ ok tt)
    × (r' : Reader (Unit {0})) × (read_block plain at_tail ≡ (err Error.fault, r'))
    × (r'.tail_seen ≡ true)
    × ((verify_physical_eof r').0
        ≡ (if length no_bytes == 0 && not false then ok tt else err Error.fault))
verify_physical_eof-write_tail_mark_example =
    verify_physical_eof-write_tail_mark plain_laws fresh at_tail no_bytes fresh-IsWriting refl
      (omega arith) (record { is_open = refl; clean = refl; before_tail = refl }) refl
      (sym marked ∙ sym (append-nil _))

two_rounds : length (pieces (length two) two) ≡ 1
unfolding pieces
two_rounds = refl

write_block_room_example :
    Done plain_laws
      (write_block plain two BlockType.file roomy)
      (length two)
      roomy
      (1 + length (pieces (length two) two))
write_block_room_example =
    write_block_room plain_laws two BlockType.file roomy
      (record { is_open = refl; ring = refl; at_start = refl; sound = refl }) (omega arith)
      (omega arith) (omega arith) (omega (arith, two_rounds))
