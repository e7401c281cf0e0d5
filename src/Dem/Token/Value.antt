-- ===== src/Dem/Token/Value.antt =====
-- src/udem.c, `DEM_token`: the tokens of the values of messages, to the items of a player. A token is its place in the table.
use lmpc.Base.{ℕ}

abbrev pub token_id : ℕ
token_id = 40

abbrev pub token_data : ℕ
token_data = 41

abbrev pub token_index : ℕ
token_index = 42

abbrev pub token_value : ℕ
token_value = 43

abbrev pub token_vol : ℕ
token_vol = 44

abbrev pub token_attenuation : ℕ
token_attenuation = 45

abbrev pub token_channel : ℕ
token_channel = 46

abbrev pub token_entity : ℕ
token_entity = 47

abbrev pub token_soundnum : ℕ
token_soundnum = 48

abbrev pub token_origin : ℕ
token_origin = 49

abbrev pub token_serverversion : ℕ
token_serverversion = 50

abbrev pub token_maxclients : ℕ
token_maxclients = 51

abbrev pub token_multi : ℕ
token_multi = 52

abbrev pub token_mapname : ℕ
token_mapname = 53

abbrev pub token_models : ℕ
token_models = 54

abbrev pub token_sounds : ℕ
token_sounds = 55

abbrev pub token_style : ℕ
token_style = 56

abbrev pub token_string : ℕ
token_string = 57

abbrev pub token_player : ℕ
token_player = 58

abbrev pub token_netname : ℕ
token_netname = 59

abbrev pub token_frags : ℕ
token_frags = 60

abbrev pub token_view_ofs_z : ℕ
token_view_ofs_z = 61

abbrev pub token_punchangle_x : ℕ
token_punchangle_x = 62

abbrev pub token_angles_1 : ℕ
token_angles_1 = 63

abbrev pub token_angles_2 : ℕ
token_angles_2 = 64

abbrev pub token_angles_3 : ℕ
token_angles_3 = 65

abbrev pub token_vel_x : ℕ
token_vel_x = 66

abbrev pub token_vel_y : ℕ
token_vel_y = 67

abbrev pub token_vel_z : ℕ
token_vel_z = 68

abbrev pub token_weapons : ℕ
token_weapons = 69

abbrev pub token_ammotype : ℕ
token_ammotype = 70

abbrev pub token_armortype : ℕ
token_armortype = 71

abbrev pub token_megahealth : ℕ
token_megahealth = 72

abbrev pub token_keys : ℕ
token_keys = 73

abbrev pub token_power_ups : ℕ
token_power_ups = 74
