-- ===== src/Core/Process/Tests.antt =====
-- The records of a small process, parsed.
use arthur.Base.{true, false, Option, none, some, [], ◌∷◌, ◌++◌}
use arthur.Base.Words.{le_bytes}
use arthur.Core.Loads.{MemRegion}
use arthur.Proc.Text.Scanf
use arthur.Proc.Cmdline
use arthur.Proc.Maps
use arthur.Proc.Auxv
use arthur.Proc.Stat
use arthur.Proc.Tests.Checks.{file}
use arthur.Proc.Tests.Files.{stat_file, stat_of_7}
use arthur.Proc.Tests.Regions.{maps_text}
use arthur.Core.Process.{ThreadData, ProcessData, fresh_auxv}

abbrev thread : Option Stat.Stat → ThreadData
thread st = record { pid = 7; stat = some stat_file; d_stat = st }

-- An archive without credentials.
abbrev records : ProcessData
records = record {
  cmdline = none;
  auxv = some (file (le_bytes 8 11 ++ (le_bytes 8 1000 ++ (le_bytes 8 0 ++ le_bytes 8 0))));
  maps = some (file maps_text);
  stat = some stat_file;
  d_cmdline = [];
  d_maps = [];
  d_auxv = fresh_auxv;
  d_stat = none;
  uid = 0;
  gid = 0;
  credentials_valid = false;
  threads = thread none ∷ [];
}

abbrev program : MemRegion
program = record {
  start_addr = 0x400000;
  end_addr = 0x401000;
  offset = 0;
  dev_major = 8;
  dev_minor = 1;
  inode = 42;
  perms = 5;
  is_private = 1;
  is_shared = 0;
  name = b'/' ∷ b'b' ∷ b'i' ∷ b'n' ∷ b'/' ∷ b'x' ∷ [];
}

abbrev parsed : ProcessData
parsed = record records {
  d_maps = program ∷ [];
  d_auxv = record fresh_auxv { uid = 1000 };
  d_stat = some stat_of_7;
  uid = 1000;
  credentials_valid = true;
  threads = thread (some stat_of_7) ∷ [];
}
