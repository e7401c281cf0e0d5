-- ===== src/Dem/Token.antt =====
-- src/udem.c, `DEM_token`, and the numbers of src/udem.h. The numbers of the TOKEN_ names are given
-- out by the parser generator, so that they are a parameter: a token is its place in the table, and
-- a numbering gives different places different numbers, none of them that of a value or of
-- GEN_NOTHING.
pub mod Message
pub mod Value
pub mod Field
pub use Message.*
pub use Value.*
pub use Field.*
use Prim.Native.String.{String}
use lmpc.Base.{ℕ, ◌<◌, ◌≡◌, List, [], ◌∷◌, map}
use lmpc.Base.Text.{codes}
use lmpc.Node.{gen_nothing}
use lmpc.Node.Token.{Token}

-- More places than the table has.
abbrev pub table_limit : ℕ
table_limit = 256

pub record Numbering : Type 0 where
  pub number : ℕ → ℕ
  pub injective : (a b : ℕ) → a < table_limit → b < table_limit → number a ≡ number b → a ≡ b
  pub low : (a : ℕ) → a < table_limit → number a < 0x2000

-- A row of the table: string, token and message number.
pub record Row : Type 0 where
  pub string : List ℕ
  pub token : ℕ
  pub id : ℕ

abbrev row : String → ℕ → ℕ → Row
row s t i = record { string = codes s; token = t; id = i }

abbrev pub rows : List Row
rows =
    row "track" token_track 0
    ∷ row "block" token_block 0
    ∷ row "camera" token_camera 0
    ∷ row "unknown" token_unknown 0
    ∷ row "bad" token_bad 0
    ∷ row "nop" token_nop 1
    ∷ row "disconnect" token_disconnect 2
    ∷ row "updatestat" token_updatestat 3
    ∷ row "version" token_version 4
    ∷ row "setview" token_setview 5
    ∷ row "sound" token_sound 6
    ∷ row "time" token_time 7
    ∷ row "print" token_print 8
    ∷ row "stufftext" token_stufftext 9
    ∷ row "setangle" token_setangle 10
    ∷ row "serverinfo" token_serverinfo 11
    ∷ row "lightstyle" token_lightstyle 12
    ∷ row "updatename" token_updatename 13
    ∷ row "updatefrags" token_updatefrags 14
    ∷ row "clientdata" token_clientdata 15
    ∷ row "stopsound" token_stopsound 16
    ∷ row "updatecolors" token_updatecolors 17
    ∷ row "particle" token_particle 18
    ∷ row "damage" token_damage 19
    ∷ row "spawnstatic" token_spawnstatic 20
    ∷ row "spawnbinary" token_spawnbinary 21
    ∷ row "spawnbaseline" token_spawnbaseline 22
    ∷ row "temp_entity" token_temp_entity 23
    ∷ row "setpause" token_setpause 24
    ∷ row "signonnum" token_signonnum 25
    ∷ row "centerprint" token_centerprint 26
    ∷ row "killedmonster" token_killedmonster 27
    ∷ row "foundsecret" token_foundsecret 28
    ∷ row "spawnstaticsound" token_spawnstaticsound 29
    ∷ row "intermission" token_intermission 30
    ∷ row "finale" token_finale 31
    ∷ row "cdtrack" token_cdtrack 32
    ∷ row "sellscreen" token_sellscreen 33
    ∷ row "cutscene" token_cutscene 34
    ∷ row "updateentity" token_updateentity 0
    ∷ row "id" token_id 0
    ∷ row "data" token_data 0
    ∷ row "index" token_index 0
    ∷ row "value" token_value 0
    ∷ row "vol" token_vol 0
    ∷ row "attenuation" token_attenuation 0
    ∷ row "channel" token_channel 0
    ∷ row "entity" token_entity 0
    ∷ row "soundnum" token_soundnum 0
    ∷ row "origin" token_origin 0
    ∷ row "serverversion" token_serverversion 0
    ∷ row "maxclients" token_maxclients 0
    ∷ row "multi" token_multi 0
    ∷ row "mapname" token_mapname 0
    ∷ row "models" token_models 0
    ∷ row "sounds" token_sounds 0
    ∷ row "style" token_style 0
    ∷ row "string" token_string 0
    ∷ row "player" token_player 0
    ∷ row "netname" token_netname 0
    ∷ row "frags" token_frags 0
    ∷ row "view_ofs_z" token_view_ofs_z 0
    ∷ row "punchangle_x" token_punchangle_x 0
    ∷ row "angles_1" token_angles_1 0
    ∷ row "angles_2" token_angles_2 0
    ∷ row "angles_3" token_angles_3 0
    ∷ row "vel_x" token_vel_x 0
    ∷ row "vel_y" token_vel_y 0
    ∷ row "vel_z" token_vel_z 0
    ∷ row "weapons" token_weapons 0
    ∷ row "ammotype" token_ammotype 0
    ∷ row "armortype" token_armortype 0
    ∷ row "megahealth" token_megahealth 0
    ∷ row "keys" token_keys 0
    ∷ row "power_ups" token_power_ups 0
    ∷ row "uk_items_b23" token_uk_items_b23 0
    ∷ row "uk_items_b24" token_uk_items_b24 0
    ∷ row "uk_items_b25" token_uk_items_b25 0
    ∷ row "uk_items_b26" token_uk_items_b26 0
    ∷ row "uk_items_b27" token_uk_items_b27 0
    ∷ row "runes" token_runes 0
    ∷ row "uk_bit_b10" token_uk_bit_b10 0
    ∷ row "uk_bit_b11" token_uk_bit_b11 0
    ∷ row "weaponframe" token_weaponframe 0
    ∷ row "armorvalue" token_armorvalue 0
    ∷ row "weaponmodel" token_weaponmodel 0
    ∷ row "health" token_health 0
    ∷ row "currentammo" token_currentammo 0
    ∷ row "ammo_shells" token_ammo_shells 0
    ∷ row "ammo_nails" token_ammo_nails 0
    ∷ row "ammo_rockets" token_ammo_rockets 0
    ∷ row "ammo_cells" token_ammo_cells 0
    ∷ row "weapon" token_weapon 0
    ∷ row "colors" token_colors 0
    ∷ row "vel" token_vel 0
    ∷ row "color" token_color 0
    ∷ row "count" token_count 0
    ∷ row "save" token_save 0
    ∷ row "take" token_take 0
    ∷ row "default_modelindex" token_default_modelindex 0
    ∷ row "default_frame" token_default_frame 0
    ∷ row "default_colormap" token_default_colormap 0
    ∷ row "default_skin" token_default_skin 0
    ∷ row "default_origin" token_default_origin 0
    ∷ row "default_angles" token_default_angles 0
    ∷ row "entitytype" token_entitytype 0
    ∷ row "trace_endpos" token_trace_endpos 0
    ∷ row "range" token_range 0
    ∷ row "fromtrack" token_fromtrack 0
    ∷ row "totrack" token_totrack 0
    ∷ row "modelindex" token_modelindex 0
    ∷ row "frame" token_frame 0
    ∷ row "colormap" token_colormap 0
    ∷ row "skin" token_skin 0
    ∷ row "effects" token_effects 0
    ∷ row "origin_x" token_origin_x 0
    ∷ row "origin_y" token_origin_y 0
    ∷ row "origin_z" token_origin_z 0
    ∷ row "new" token_new 0
    ∷ []

unfoldable pub dem_token : Numbering → List Token
dem_token N =
    record { string = []; type = gen_nothing; id = 0 }
    ∷ map (λ r. record { string = r.string; type = N.number r.token; id = r.id }) rows
