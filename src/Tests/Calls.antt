-- ===== src/Tests/Calls.antt =====
-- Calls on paths.
use os_lab.Prelude.{ℕ, List, ◌∷◌, [], some, none}
use os_lab.Prelude.Int.{pos}
use os_lab.Sysfile.{Sys}
use os_lab.Paths.{Site}
use os_lab.Paths.Link.{sys_link}
use os_lab.Paths.Unlink.{sys_unlink}
use os_lab.Paths.Create.{sys_open, sys_mkdir, sys_mknod, sys_chdir}
use os_lab.Paths.Balance.{Moves}
use os_lab.Paths.Calls.{path_calls-Moves}

abbrev site : Site
site = record {
  devices = record { read = λ m. none; write = λ m. none };
  superblock = record {
    size = 8;
    nblocks = 4;
    ninodes = 8;
    nlog = 0;
    logstart = 2;
    inodestart = 2;
    bmapstart = 3;
  };
  caller = record { pid = pos 4; cwd = 0 };
}

abbrev descriptors : Sys
descriptors = record { files = []; ofile = none ∷ []; closed = []; memory = λ a. 0 }

abbrev path_a : List ℕ
path_a = b'/' ∷ b'a' ∷ []

path_calls-Moves_example :
    Moves 1 1 (sys_link site (some path_a) (some path_a))
    × Moves 1 1 (sys_unlink site (some path_a))
    × Moves 1 1 (sys_open site (some path_a) (some 0) descriptors)
    × Moves 1 1 (sys_mkdir site none)
    × Moves 1 1 (sys_mknod site none (some 1) (some 1))
    × Moves 1 1 (sys_chdir site none)
path_calls-Moves_example = path_calls-Moves site path_a path_a none (some 1) (some 1) 0 descriptors
