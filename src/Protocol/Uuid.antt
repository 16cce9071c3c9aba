-- ===== src/Protocol/Uuid.antt =====
-- src/protocol.rs: the characteristic UUIDs that the client reads (module `uuid`).
use allsquare.Base.{ℕ}

abbrev pub device_id : ℕ
device_id = 0x8660_2001_6b7e_439a_bdd1_489a_3213_e9bb

abbrev pub hw_version : ℕ
hw_version = 0x8660_2002_6b7e_439a_bdd1_489a_3213_e9bb

abbrev pub fw_version : ℕ
fw_version = 0x8660_2003_6b7e_439a_bdd1_489a_3213_e9bb

abbrev pub gap_name : ℕ
gap_name = 0x0000_2a00_0000_1000_8000_0080_5f9b_34fb

abbrev pub cmd : ℕ
cmd = 0x8660_2101_6b7e_439a_bdd1_489a_3213_e9bb

abbrev pub evt : ℕ
evt = 0x8660_2102_6b7e_439a_bdd1_489a_3213_e9bb
