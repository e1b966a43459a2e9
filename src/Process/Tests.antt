-- ===== src/Process/Tests.antt =====
-- An example of the log: a server that logs to a file.
use logline.Base.{◌≡◌, ◌++◌, false, some, codes}
use logline.Config.{given, ConfPath}
use logline.Config
use logline.Process.{info, of_log_level, unset, setup_logging, setup_log_file}
use logline.Process.Log.{sinks, on_stderr, in_file, sinks-setup}

sinks-setup_example :
    sinks
      (setup_log_file
        (some (given (codes "server.log")))
        (of_log_level Config.info)
        (setup_logging false unset))
      info
    ≡ on_stderr false (some (given (codes "server.log"))) info
      ++ in_file (some (given (codes "server.log"))) Config.info info
sinks-setup_example = sinks-setup false (some (given (codes "server.log"))) Config.info info
