-- ===== src/Dem/Token/Field.antt =====
-- src/udem.c, `DEM_token`: the tokens of the other values. A token is its place in the table.
use lmpc.Base.{ℕ}

abbrev pub token_uk_items_b23 : ℕ
token_uk_items_b23 = 75

abbrev pub token_uk_items_b24 : ℕ
token_uk_items_b24 = 76

abbrev pub token_uk_items_b25 : ℕ
token_uk_items_b25 = 77

abbrev pub token_uk_items_b26 : ℕ
token_uk_items_b26 = 78

abbrev pub token_uk_items_b27 : ℕ
token_uk_items_b27 = 79

abbrev pub token_runes : ℕ
token_runes = 80

abbrev pub token_uk_bit_b10 : ℕ
token_uk_bit_b10 = 81

abbrev pub token_uk_bit_b11 : ℕ
token_uk_bit_b11 = 82

abbrev pub token_weaponframe : ℕ
token_weaponframe = 83

abbrev pub token_armorvalue : ℕ
token_armorvalue = 84

abbrev pub token_weaponmodel : ℕ
token_weaponmodel = 85

abbrev pub token_health : ℕ
token_health = 86

abbrev pub token_currentammo : ℕ
token_currentammo = 87

abbrev pub token_ammo_shells : ℕ
token_ammo_shells = 88

abbrev pub token_ammo_nails : ℕ
token_ammo_nails = 89

abbrev pub token_ammo_rockets : ℕ
token_ammo_rockets = 90

abbrev pub token_ammo_cells : ℕ
token_ammo_cells = 91

abbrev pub token_weapon : ℕ
token_weapon = 92

abbrev pub token_colors : ℕ
token_colors = 93

abbrev pub token_vel : ℕ
token_vel = 94

abbrev pub token_color : ℕ
token_color = 95

abbrev pub token_count : ℕ
token_count = 96

abbrev pub token_save : ℕ
token_save = 97

abbrev pub token_take : ℕ
token_take = 98

abbrev pub token_default_modelindex : ℕ
token_default_modelindex = 99

abbrev pub token_default_frame : ℕ
token_default_frame = 100

abbrev pub token_default_colormap : ℕ
token_default_colormap = 101

abbrev pub token_default_skin : ℕ
token_default_skin = 102

abbrev pub token_default_origin : ℕ
token_default_origin = 103

abbrev pub token_default_angles : ℕ
token_default_angles = 104

abbrev pub token_entitytype : ℕ
token_entitytype = 105

abbrev pub token_trace_endpos : ℕ
token_trace_endpos = 106

abbrev pub token_range : ℕ
token_range = 107

abbrev pub token_fromtrack : ℕ
token_fromtrack = 108

abbrev pub token_totrack : ℕ
token_totrack = 109

abbrev pub token_modelindex : ℕ
token_modelindex = 110

abbrev pub token_frame : ℕ
token_frame = 111

abbrev pub token_colormap : ℕ
token_colormap = 112

abbrev pub token_skin : ℕ
token_skin = 113

abbrev pub token_effects : ℕ
token_effects = 114

abbrev pub token_origin_x : ℕ
token_origin_x = 115

abbrev pub token_origin_y : ℕ
token_origin_y = 116

abbrev pub token_origin_z : ℕ
token_origin_z = 117

abbrev pub token_new : ℕ
token_new = 118
