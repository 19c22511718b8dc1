-- ===== src/Lib.antt =====
-- Verification of arthur, which dumps a running process into a compressed core file (acore) and
-- turns it back into an ELF core file.
--
-- An acore file is a file header, blocks compressed by LZ4, records of /proc files, memory loads,
-- ELF headers, and a tail mark. All of it goes through Lz4Stream (src/lz4.h, src/lz4.cc): the dump
-- writes through a compressing stream, and the tools read through a decompressing one.
--
-- Which file models what:
-- - Base: shared helpers. Base.Files is the stdio file below a stream: an OutFile takes a number of
--   further bytes before writes come up short and set its error flag, and an InFile has a content, a
--   position and the flags of feof and ferror. Base.Results holds results: a method takes the object
--   and returns its result with the new object, so a failed call still shows what it changed.
-- - Stream.BlockType, Stream.Header, Stream.Block: the block types, BlockHeader with its three
--   packed bytes, and class Block of src/lz4.h.
-- - Stream.Crc: crc32_update and block_checksum.
-- - Stream.Codec: the LZ4 streaming interface as a record of operations, Lz4, and what its
--   documentation promises as the record Lz4Laws. The library's states are parameters.
-- - Stream.ProcFile: ProcFile of src/proc.h as an object and as bytes. Stream.FileRecord: the record
--   that PutFile writes.
-- - Stream.Writer: Lz4Stream in mode LZ4_Compress: Compress, Flush, Write, WriteBlock, WriteRaw,
--   SetBlock, PutFile, EnableBlockChecksums, Sync and Close, and Coredump::WriteTailMark
--   (src/core.cc).
-- - Stream.Reader and Stream.Reader.GetFile: Lz4Stream in mode LZ4_Decompress: ReadBlock, ReadRaw,
--   Peek, VerifyPhysicalEof, EnableBlockChecksums, Seek, Close and GetFile.
-- - Stream.Room: the compressor while its file has room. Stream.Reader.Answers,
--   Stream.Reader.Damage, Stream.Reader.Progress: the decompressor on any file, and on a damaged
--   block.
-- - Stream.TailMark: the end of a stream. Core.FileHeader: AcoreHeader, WriteFileHeader and
--   VerifyFileHeader of src/core.h and src/core.cc.
-- - Proc.Read: ProcFile::ReadPath, Read and ReadPid, and szProcType (src/proc.h, src/proc.cc), over
--   a list of what the kernel answers to the reads. Proc.Read.Loop and Proc.Read.Bounds: what they
--   read and store.
-- - Proc.Text, Proc.Text.Scanf, Proc.Text.Integers: the C library's calls that the parsers use, on
--   bytes. Proc.Lines: both ProcDecoder::readline and the loop over lines. Proc.Lines.Buffer: the
--   loops of the readline into a buffer.
-- - Proc.Maps, Proc.Cmdline, Proc.Stat, Proc.Auxv, Proc.Status: Parse of ProcMaps, ProcCmdline,
--   ProcStat, ProcAuxv and ProcStatus. Proc.Stat.Fields cuts the record of ProcStat, and
--   Proc.Stat.Values reads its numbers; Proc.Stat.States has the kernel's table of task states, and
--   Proc.Stat.Origins which field each number is; sysconf(_SC_PAGESIZE) is a parameter.
--   Proc.Maps.Grammar has the lines of a maps file as the kernel writes them.
-- - Core.Elf: Elf64_Ehdr and Elf64_Phdr of src/elf.h as objects and as bytes. Core.Elf.Output: both
--   WriteElfHeader of src/core.cc, into the stream and into the core file. Core.Elf.Input:
--   ReadElfHeader of src/core.cc, on any stream.
-- - Core.Output: AtomicOutputState, create_atomic_output, commit_atomic_path and commit_atomic_file
--   of src/core.cc. Core.Output.Streams: the same for a compressing stream. Core.Output.Calls has
--   the system calls on the temporary name and the final path; in front of each call, other
--   processes may change the final path, and each call may be refused. Core.Output.Losses and
--   Core.Output.Quiet: which files are removed, and what stands at the final path.
-- - Core.Memory: Coredump::WriteLoads and Coredump::ReadLoads of src/core.cc. Core.Memory.Source has
--   the memory of the process, a byte at each address, and the loop of pread over what the kernel
--   answers. Core.Memory.Image, Blocks, Dumped and Regions: what a dump adds to the stream;
--   Core.Memory.Restored and RoundTrip: what becomes of it in the core file; Core.Memory.Limits:
--   ReadLoads on any file.
-- - Core.Notes: Note::allocate, fill_auxv, fill_file and jiffies_to_timeval of src/core.cc.
--   Core.Notes.Reading and Core.Notes.View: notes as a debugger reads them. Core.Notes.Selection:
--   which regions that note lists. Core.Notes.Files: that the note of the mapped files is read as it
--   was filled.
-- - Core.Process: ProcessData::ParseAll of src/core.cc, over the parsers of Proc.
-- - Core.StatusMask: parse_status_mask of src/core.cc.
-- - Core.Loads: MemRegion of src/proc.h, and expected_load_phdrs of src/core.cc, which lays out the
--   memory regions. Core.Loads.Process: that function on what ProcMaps::Parse gives.
-- - Stream.Pieces, Stream.Transfer: data cut into blocks, and both streams together.
--
-- Fuel: the loops of Write, WriteBlock and GetFile run on fuel that is the number of bytes asked
-- for. Each round takes at least one byte. The loop over the lines of a /proc file has a round more
-- than the file has bytes, and the loop of ReadPath has a round for each byte of room and for each
-- answer of the kernel, and one more. ReadElfHeader has a round for each byte of the file, and one
-- more: a block takes at least the three bytes of its header. So has ReadLoads. The loop of
-- WriteLoads over a region has a round for each byte of the region.
--
-- Not modelled: null pointers, failures of malloc, the logging, and PrintStat. File sizes are
-- numbers without the bound of long. Of ProcFile::Read, the failure of vsnprintf and a null format
-- are left out, and its buffers are shorter than 2 GiB. A readline into a buffer whose size is not
-- 0, but is not positive when cast to int, has no result: the code then copies a negative length.
-- How the metadata of the process and its threads is stored and read, the notes other than those of
-- the auxiliary vector and the mapped files, and the control of processes are not modelled.
pub mod Base
pub mod Core
pub mod Proc
pub mod Stream
