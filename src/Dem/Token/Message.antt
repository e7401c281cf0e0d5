-- ===== src/Dem/Token/Message.antt =====
-- src/udem.c, `DEM_token`: the tokens of blocks and messages. A token is its place in the table.
use lmpc.Base.{ℕ}

abbrev pub token_track : ℕ
token_track = 0

abbrev pub token_block : ℕ
token_block = 1

abbrev pub token_camera : ℕ
token_camera = 2

abbrev pub token_unknown : ℕ
token_unknown = 3

abbrev pub token_bad : ℕ
token_bad = 4

abbrev pub token_nop : ℕ
token_nop = 5

abbrev pub token_disconnect : ℕ
token_disconnect = 6

abbrev pub token_updatestat : ℕ
token_updatestat = 7

abbrev pub token_version : ℕ
token_version = 8

abbrev pub token_setview : ℕ
token_setview = 9

abbrev pub token_sound : ℕ
token_sound = 10

abbrev pub token_time : ℕ
token_time = 11

abbrev pub token_print : ℕ
token_print = 12

abbrev pub token_stufftext : ℕ
token_stufftext = 13

abbrev pub token_setangle : ℕ
token_setangle = 14

abbrev pub token_serverinfo : ℕ
token_serverinfo = 15

abbrev pub token_lightstyle : ℕ
token_lightstyle = 16

abbrev pub token_updatename : ℕ
token_updatename = 17

abbrev pub token_updatefrags : ℕ
token_updatefrags = 18

abbrev pub token_clientdata : ℕ
token_clientdata = 19

abbrev pub token_stopsound : ℕ
token_stopsound = 20

abbrev pub token_updatecolors : ℕ
token_updatecolors = 21

abbrev pub token_particle : ℕ
token_particle = 22

abbrev pub token_damage : ℕ
token_damage = 23

abbrev pub token_spawnstatic : ℕ
token_spawnstatic = 24

abbrev pub token_spawnbinary : ℕ
token_spawnbinary = 25

abbrev pub token_spawnbaseline : ℕ
token_spawnbaseline = 26

abbrev pub token_temp_entity : ℕ
token_temp_entity = 27

abbrev pub token_setpause : ℕ
token_setpause = 28

abbrev pub token_signonnum : ℕ
token_signonnum = 29

abbrev pub token_centerprint : ℕ
token_centerprint = 30

abbrev pub token_killedmonster : ℕ
token_killedmonster = 31

abbrev pub token_foundsecret : ℕ
token_foundsecret = 32

abbrev pub token_spawnstaticsound : ℕ
token_spawnstaticsound = 33

abbrev pub token_intermission : ℕ
token_intermission = 34

abbrev pub token_finale : ℕ
token_finale = 35

abbrev pub token_cdtrack : ℕ
token_cdtrack = 36

abbrev pub token_sellscreen : ℕ
token_sellscreen = 37

abbrev pub token_cutscene : ℕ
token_cutscene = 38

abbrev pub token_updateentity : ℕ
token_updateentity = 39
