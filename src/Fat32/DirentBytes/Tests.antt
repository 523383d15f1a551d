-- ===== src/Fat32/DirentBytes/Tests.antt =====
-- The bytes of a concrete entry.
use bitos.Base.{◌≡◌, refl, arith, replicate}
use bitos.Fat32.ShortDirEntry.{ShortDirEntry}
use bitos.Fat32.DirentBytes.{as_bytes, from_bytes}
use bitos.Fat32.DirentBytes.RoundTrip.{IsSized, from_bytes-as_bytes}

abbrev notes : ShortDirEntry
notes = record {
  name = replicate 8 0x41;
  extension = replicate 3 0x42;
  attribute = 0x20;
  winnt_reserved = 0;
  creation_tenths = 7;
  creation_time = 0x1234;
  creation_date = 0x529c;
  last_acc_date = 0;
  cluster_high = 1;
  modification_time = 0;
  modification_date = 0;
  cluster_low = 0x0203;
  size = 70000;
}

notes-IsSized : IsSized notes
notes-IsSized = record {
  name = refl;
  extension = refl;
  attribute = omega arith;
  winnt_reserved = omega arith;
  creation_tenths = omega arith;
  creation_time = omega arith;
  creation_date = omega arith;
  last_acc_date = omega arith;
  cluster_high = omega arith;
  modification_time = omega arith;
  modification_date = omega arith;
  cluster_low = omega arith;
  size = omega arith;
}

notes_read_back : from_bytes (as_bytes notes) ≡ notes
notes_read_back = (from_bytes-as_bytes notes notes-IsSized).1
