-- ===== src/Configure/Tests.antt =====
-- A disk that holds one file, and a first start of the node with a flag.
use rtp_http_flv.Prelude.{ℕ, ◌≡◌, refl, true, List, [], ◌∷◌, Option, none, some, done, arith}
use rtp_http_flv.Configure.{
  Config, defaults, Flag, enable_hls, set_flag, parse_flags, trace, Level, Disk, conf_yaml,
  init_config, read_from_xml,
}
use rtp_http_flv.Configure.Again.{Remembers, init_config_again}

-- The contents of a file are the settings, without `h`.
abbrev disk : Disk ℕ
disk = record {
  World = Option (Config ℕ);
  Bytes = Config ℕ;
  read_file = λ src w. (w, w);
  write_file = λ src b w. (true, some b);
  not_exists = λ dir w. (true, w);
  mkdir = λ dir w. (true, w);
  open_log = λ w. (true, w);
  marshal = λ c. some c;
  unmarshal = λ b d. some (record b { h = d.h });
}

disk-Remembers : Remembers ℕ disk
disk-Remembers = record {
  reads = λ src b w h. refl;
  asks = λ src dir b w h. h;
  makes = λ src dir b w h. h;
  opens = λ src b w h. h;
  decodes = λ c d b h. ground arith;
}

abbrev flags : List (Flag ℕ)
flags = enable_hls true ∷ []

abbrev with_hls : Config ℕ
with_hls = record (defaults 1) { enable_hls = true }

starts :
    init_config ℕ disk flags (defaults 1) none
    ≡ done (true, with_hls, some trace, some (defaults 1))
unfolding init_config read_from_xml rtp_http_flv.Configure.write_to_xml parse_flags set_flag
    rtp_http_flv.Configure.make_dir rtp_http_flv.Configure.level_of
starts = refl

init_config_again_example :
    (with_hls ≡ parse_flags flags (defaults 1))
    × ((w : Option (Config ℕ)) × (read_from_xml ℕ disk
            (conf_yaml ℕ disk)
            (defaults 2)
            (some (defaults 1))
          ≡ done (defaults 1, w)))
init_config_again_example =
    init_config_again ℕ disk flags (defaults 1) with_hls (defaults 2) (some trace) none
      (some (defaults 1)) disk-Remembers refl starts
