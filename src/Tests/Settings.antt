-- ===== src/Tests/Settings.antt =====
-- The theorems on the configuration at concrete inputs. Models no code of its own.
use miqudm.Prelude.{◌≡◌, refl, true, [], Text, codes, find_if, arith, text_eq, has}
use miqudm.Tests.World.{no_files}
use miqudm.Config.{
  write_file, saved_text, Config, default_config, FileSystem, load, save, save_path,
  find_config_file, remember,
}
use miqudm.Config.Trim.{trim}
use miqudm.Config.Values.{IsClean, load-IsClean}
use miqudm.Config.RoundTrip.{load-save}
use miqudm.Config.Restart.{load-remember}

default-IsClean : IsClean default_config
unfolding trim has
default-IsClean = record {
  general = record {
    default_session = record { trimmed = refl; one_line = refl };
    last_user = record { trimmed = refl; one_line = refl };
    greeter_command = record { trimmed = refl; one_line = refl };
    greeter_user = record { trimmed = refl; one_line = refl };
    vt = omega arith;
  };
  autologin = record {
    user = record { trimmed = refl; one_line = refl };
    session = record { trimmed = refl; one_line = refl };
  };
}

abbrev saved : FileSystem
saved = write_file (codes "/etc/m.conf") (saved_text default_config) no_files

load-save_example :
    load default_config (codes "/etc/m.conf") saved
    ≡ (true, record default_config { loaded_path = codes "/etc/m.conf" })
unfolding save find_config_file save_path write_file text_eq
load-save_example =
    load-save default_config default_config (codes "/etc/m.conf") (codes "/etc/m.conf") no_files
      saved default-IsClean refl refl refl

load-IsClean_example : IsClean (load default_config (codes "/etc/m.conf") saved).1
load-IsClean_example = load-IsClean default_config (codes "/etc/m.conf") saved default-IsClean

abbrev system_path : Text
system_path = codes "/etc/miqudm/miqudm.conf"

abbrev installed : FileSystem
installed = write_file system_path (saved_text default_config) no_files

abbrev loaded : Config
loaded = record default_config { loaded_path = system_path }

installed-loaded : load default_config [] installed ≡ (true, loaded)
unfolding save find_config_file save_path write_file text_eq find_if
installed-loaded =
    load-save default_config default_config [] [] no_files installed default-IsClean refl refl refl

load-remember_example :
    load default_config []
      (write_file system_path (saved_text (remember (codes "alice") loaded)) installed)
    ≡ (true, remember (codes "alice") loaded)
unfolding save save_path write_file trim has
load-remember_example =
    load-remember default_config loaded default_config installed
      (write_file system_path (saved_text (remember (codes "alice") loaded)) installed)
      (codes "alice") default-IsClean (record { trimmed = refl; one_line = refl }) installed-loaded
      refl refl
