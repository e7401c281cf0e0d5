-- ===== src/Lib.antt =====
-- lmpc, the Little Movie Processing Centre: a model of the program that turns the demo files of
-- several games into text and back, and of its cutter of Quake demos.
--
-- The parts of the program and where they are modelled:
-- * src/binblock.c, the block of bytes with a cursor: Binblock (the block, single bytes), with
--   Binblock/Number.antt (put_short, get_next_long, ReadLongBE, ...) and Binblock/Text.antt
--   (get_next_string, put_string). Binblock/Bytes.antt says what reads and writes do to the bytes.
--   Binblock/Float.antt has the floats that a block holds as bytes and shorts (ReadAngle, WriteCoord,
--   ...), Binblock/Direction.antt the table of directions, Binblock/Argument.antt the writers of
--   arguments and messages by their types and hints (do_simple_message_write_bin, ...).
-- * src/node.c, the tree in which every format is edited: Node (the data), Node/Chain.antt (making
--   and linking nodes), Node/Token.antt (the table of tokens), Node/Reorder.antt
--   (node_down_reorder), Node/Bitlist.antt (bitlist_to_nodes, nodes_to_bitlist).
-- * src/ulmp.c, the recordings of the DOOM engine games: Lmp (LMP_t), Lmp/Game.antt (the sets of
--   games), Lmp/Determine.antt (LMP_self_determine_type), Lmp/Header.antt (LMP_readheader,
--   LMP_writeheader, the writer of a tic), Lmp/Version.antt (the table of versions), Lmp/Stat.antt
--   (the STAT_ functions).
-- * src/lzw.c and src/unlzw.c, the compression of Duke Nukem 3D recordings: Lzw/Putcode.antt (the
--   bit buffer that is static in the source), Lzw/Compress.antt, Lzw/Decompress.antt.
-- * src/udem.c, the recordings of Quake: Dem/Token.antt (the table of tokens), Dem/State.antt (DEM_t),
--   Dem/Read (the readers of the messages, do_message_read_bin), Dem/Write (the writers of the
--   messages that combine values, and DEM_block_write_bin), Dem/Block.antt (blocks and tracks:
--   DEM_block_read_bin, DEM_bin_to_node), Dem/Analyze.antt (areDEMblocks, isDEMbin, isDEMtxt),
--   Dem/Edit.antt (DEM_block_edit). Dem/Forward follows the cursor through every reader, and
--   Dem/RoundTrip sets readers and writers against a description of the messages as bytes.
-- * src/demcut.c, the cutter: Demcut/State.antt (STATE_t and its parts), Demcut/Output.antt (opening
--   the output, writing a frame, the running range), Demcut/Track.antt (the cd track string),
--   Demcut/Command.antt (get_new_command), Demcut/Dispatch.antt
--   (do_command), Demcut/Main.antt (the round of main without a command). Demcut/Film.antt describes
--   what is put out for the frames of a range, and Demcut/Printed.antt the track as it is typed.
-- * src/dbs.c, the server that shows a Quake demo to watchers: Dbs/Packet.antt (SendUDPPacket,
--   ReceiveUDPPacket), Dbs/Transfer.antt (SendInitDEMPacket), Dbs/Server.antt (shm_t, qsdb_t, the
--   requests of ControlServer), Dbs/Server/Race.antt (the table of watchers, which the server and its
--   children change, as a step relation), Dbs/Client.antt (the phase of PlayServer in which a watcher
--   gets the first blocks), Dbs/Runtime.antt (SendRuntimeDEMPacket).
-- * src/udmo.c, the recordings of Duke Nukem 3D and Redneck Rampage: Dmo/Tail.antt (isDMO,
--   checkDMOtail), Dmo/Header.antt (DMO_t, DMO_readheader), Dmo/Macro.antt (CHU_t,
--   DMO_readblock_13, DMO_readblock_14PLUS, DMO_readmacroblock), with decompress from Lzw.
-- The Quake modules read and write blocks and build nodes from them; the cutter takes the frames of
-- a file and the messages of a block, which they make, as data.
--
-- Functions keep the names of the source, in lower case, and the fields of its structures. A call
-- that ends the program by syserror is the error of a result (Base/Result.antt); an access outside
-- a buffer or an array, which C leaves undefined, is an outcome of its own (`fault`, `none`), and a
-- loop that runs out of its fuel is another (`hangs` in the readers, `endless` in the macro blocks).
-- Numbers are natural numbers with the wrap-around written out, or the integers of Base/Int.antt; a
-- byte is a number below 256, a float its bit pattern or, in the cutter, an element of any type with
-- the operations that the program uses (`Real`). The arithmetic of double, in which a block's floats
-- are converted, is a parameter (`Floats`), and so are the numbers that the parser generator gives to
-- the tokens (`Numbering`) and what sprintf prints (`Printf`). malloc succeeds, and a tree is not shared.
--
-- Loops are structural or run on fuel. bitlist_to_nodes gets 65 rounds for the 64 bits of an
-- unsigned long. decompress gets one round more than there are bytes of input, since each code takes
-- one at least, and 2 ^ 15 steps to unwind a code, since a code leads to a smaller one and has 15
-- bits. A range gets two rounds more than the distance of its ends. compress is structural in its
-- input; the search in its hash table gets as many steps as the table has places.
--
-- The loop over the messages of a block gets a round more than the block has bytes. The loops in a
-- message (the numbers of a player's data, the rest of an unknown message, the names of the server's
-- data) get a round more than the value of the mask, the bytes left, or the size of the
-- buffer. The restarting
-- loop that edits a block needs one more round than there are messages. The loop over the blocks of
-- a file takes any fuel, since it does not end on every file.
--
-- What the network brings to the server is an input: a list with an entry for each time that it
-- waits. The transfer of a block gets one round more than it has bytes, of which each piece takes one
-- at least, and so do the orders in a packet of a watcher. The loops over the chunks of a recording,
-- in checkDMOtail and in DMO_readmacroblock, get one round more than the file has bytes: each round
-- takes two at least, or is the last.
--
-- Not modelled: the command line and its actions (src/lmpc.c), the Quake II, Quake III and QuakeWorld
-- formats (src/udm2.c, src/udm3.c, src/uqwd.c), the opening and closing of files in src/udem.c and
-- src/udmo.c, the sockets, the options and the runtime loop of src/dbs.c, and the generated lexer and
-- parser. `uncompress` in src/udmo.c is copied from the published source of Duke Nukem 3D and is a
-- parameter. Printing, the clock and the file system are left out; the year of a file and what a file
-- holds are inputs. src/quake3 and the replacements of C library functions are other
-- projects' code.
pub mod Base
pub mod Binblock
pub mod Node
pub mod Lmp
pub mod Lzw
pub mod Dem
pub mod Demcut
pub mod Dbs
pub mod Dmo
pub mod Examples
