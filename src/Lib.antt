-- ===== src/Lib.antt =====
-- Logline ships log files: an agent tails the files of a machine and sends their bytes to a server,
-- which appends them to files below one destination directory. This library models the two programs
-- and the protocol between them.
--
-- The server, server/logline_server/main.py:
--   Server/Handle.antt is `handle_client`: the initial command, the checks of the header, the
--   authentication (Server/Auth.antt, `check_client_auth`), the destination directory
--   (Server/Paths.antt, `build_destination_dir`, `_is_safe_path_segment`), and the handlers of
--   exceptions around it. Server/Serve.antt is `serve_client` with its command loop, which reads
--   commands (Server/Command.antt, `recv_command`, on Server/Stream.antt), appends data frames
--   (Server/Append.antt, `apply_data`, and `decompress_zst` of util.py) and renames
--   (Server/Rename.antt, `handle_rename`, `fsync_dir`). Server/Telemetry.antt has `init_metrics`
--   and the `record_*` functions of telemetry.py. Server/Main.antt is `server_main`, `async_main` and
--   `create_server`: a run of the process is the calls that it makes, in their order.
--   The joining of names to paths, `path / name`, is Fs/Join.antt over text, with its separators and
--   dots; Base/Parts.antt has `strip`, `split` and `join`.
--   Each of these is an action on the world of one connection (Server/World.antt): the file system,
--   what was synced, the bytes that the client will send, those sent to it, and the metrics. An
--   exception is a value of the type Error. The file system (Fs.antt) has directory entries that
--   name inodes, and the bytes of each inode; an open file is an inode with a position.
--   Concurrent/Schedule.antt has several connections of one process over its one file system: a
--   connection runs from one `await` to the next, by the same functions, and a run is any list of
--   such turns.
-- The agent, agent/logline_agent:
--   Agent/Client.antt has the frames of client.py and the reading of replies; Agent/Markers.antt is
--   `MarkerWatcher` of marker_watcher.py. Agent/Segment.antt is `Segment` of coordinator.py on an
--   interface of its surroundings, Agent/Network.antt: the file that is read, the connections and
--   the markers, which may change with each awaited call. Agent/Coordinator.antt is
--   `PathCoordinator`, with the whole of its `run` in Agent/Lifetime.antt. Agent/Files.antt is
--   `iter_files` of main.py and the tasks of its `async_main`, over a parameter for what a pattern
--   matches; Agent/Telemetry.antt is telemetry.py, and Agent/Secrets.antt `obfuscate_secrets` of
--   client.py. Agent/Connect.antt is `_send_command` with its timeouts and measurements,
--   `send_data`, `send_rename` and `connect_to_server`. Agent/Main.antt is `agent_main`,
--   `async_main` and `watch_path` of main.py, up to the coordinator.
--   Process.antt has what both main.py and telemetry.py share: `setup_logging`, `setup_log_file`
--   and `shutdown_metrics`.
-- The configuration of both programs: Config.antt has what the two configuration.py files share,
-- Config/Address.antt their `parse_address`, and Config/Agent.antt and Config/Server.antt the two
-- `Configuration` classes, over the command line, the environment, and the files as parameters.
-- The protocol: Wire.antt connects the client's writer with the server's reader, and Link the whole
-- of a segment with the server's code: Link/Line.antt is an instance of the segment's surroundings in
-- which each call runs `recv_command` and the command, or the start of `serve_client`, over the bytes
-- that the agent wrote, and reads the reply back. A call may lose its frame or its reply and break
-- the connection; the log file may grow with every call. A frame that is lost is not handled later.
-- Link/Hello.antt and Link/Greeting.antt put `handle_client` at the other end of `connect_to_server`:
-- the handshake from the agent's header to the server's reply.
-- The rest of Server and Agent holds proofs, in modules named for what they prove; Base.antt has the
-- shared names, texts, decimal notation, base64 and UTF-8.
--
-- Parameters (Host.antt) stand for code outside the repository: SHA-1, json, gzip, lzma, zstd, the
-- resolution of symbolic links, and the class `\d` of regular expressions. Of a JSON float the model
-- keeps whether it is zero.
--
-- Bounds and fuel: the stream's limit of 2^16 bytes for a line and the 4300 digits of `int()` are
-- Python's. The command loop of the server gets one round more than there are bytes of input; each
-- command takes a byte at least, so the bound is never met. The waiting loops of a segment take a
-- number of rounds and end as `unfinished` without any left; what the surroundings do decides how
-- many they need. The masking of secrets gets a round for each character, which is enough. A frame
-- of Link is at most as long as a `bytes` object, below 2^63 bytes; a longer one is not sent.
--
-- Not modelled: sockets and streams beyond their bytes, TLS beyond which certificates are loaded,
-- and signals, whose outcomes are parameters; the parsing of the command line, whose options are an
-- argument; the texts of the log; the instruments of OpenTelemetry and durations; failures of the
-- disk in a write; cancellation of tasks but for the segments of a coordinator that ends; the
-- handshake in the segments of Link. The handshake's timeout is a Boolean. Connections at once
-- begin with a header that has the shape of one, their commands come as they were received, and
-- their replies go to one output. The file system has no symbolic links, so that resolving a path
-- is a function by itself, and a rename between two hard links of one inode, which POSIX ignores,
-- removes the old name. The length in a reply is a natural number for the segments, as the server
-- reports it.
pub mod Base
pub mod Json
pub mod Fs
pub mod Host
pub mod Config
pub mod Process
pub mod Server
pub mod Agent
pub mod Wire
pub mod Link
pub mod Concurrent
