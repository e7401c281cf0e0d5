-- ===== src/Binblock/Hint.antt =====
-- src/binblock.h: the hints that say how an argument is written.
use lmpc.Base.{ℕ}

abbrev pub h_simple : ℕ
h_simple = 1

abbrev pub h_byte : ℕ
h_byte = 2

abbrev pub h_short : ℕ
h_short = 3

abbrev pub h_long : ℕ
h_long = 4

abbrev pub h_coord : ℕ
h_coord = 5

abbrev pub h_float : ℕ
h_float = 6

abbrev pub h_angle : ℕ
h_angle = 8

abbrev pub h_string : ℕ
h_string = 10

abbrev pub h_stringlist : ℕ
h_stringlist = 11

abbrev pub h_vel : ℕ
h_vel = 12

abbrev pub h_vol : ℕ
h_vol = 13

abbrev pub h_attenuation : ℕ
h_attenuation = 14

abbrev pub h_unknown : ℕ
h_unknown = 15

abbrev pub h_byte_float : ℕ
h_byte_float = 22

abbrev pub h_nothing : ℕ
h_nothing = 24

abbrev pub h_lsb : ℕ
h_lsb = 25

abbrev pub h_timeofs : ℕ
h_timeofs = 26

abbrev pub h_angle16 : ℕ
h_angle16 = 27

abbrev pub h_dir : ℕ
h_dir = 28

abbrev pub h_offset : ℕ
h_offset = 29

abbrev pub h_blend : ℕ
h_blend = 30

abbrev pub h_sb : ℕ
h_sb = 31

abbrev pub mask_unicast : ℕ
mask_unicast = 0x80
