-- ===== src/Tests/Installation.antt =====
-- linuxService.go on a system whose state counts the changes.
use telephonist_agent.Base.{
  ℕ, ◌+◌, ◌≡◌, ◌≢◌, refl, Bytes, codes, [], ◌∷◌, true, none, inl, Bytes-discrete, ℕ_discrete,
}
use telephonist_agent.Cli.Dialogue.{trim}
use telephonist_agent.Cli.Service.{
  System, ServiceTexts, installed_path, service_file, service_file_content, if_asked, stop_service,
  move_executable, create_service_file, reload_daemon, install_service, chained_to, copied,
  copy_from, install_service_writes,
}

abbrev counting : System ℕ
counting = record {
  executable = λ w. inl (codes "/a");
  read_file = λ path w. inl (codes "elf");
  write_file = λ path input w. (w + 1, none);
  systemctl = λ args w. (w + 1, none);
}

abbrev no_texts : ServiceTexts
no_texts = record { file_is_already_in_place = []; failed_to_copy_executable = [] }

installed : install_service counting no_texts true 0 ≡ (5, none)
unfolding install_service stop_service move_executable create_service_file reload_daemon chained_to
    copied copy_from Bytes-discrete ℕ_discrete
installed = refl

install_service_writes_example :
    (w1 : ℕ) × (path : Bytes) × (input : Bytes) × (w2 : ℕ) × (w3 : ℕ) × (if_asked counting no_texts
        true
        (stop_service counting no_texts)
        0
      ≡ (w1, none))
    × (counting.executable w1 ≡ inl path)
    × (path ≢ installed_path)
    × (counting.read_file path w1 ≡ inl input)
    × (counting.write_file installed_path input w1 ≡ (w2, none))
    × (counting.write_file service_file (trim (32 ∷ 10 ∷ 9 ∷ []) service_file_content) w2
        ≡ (w3, none))
    × (if_asked counting no_texts true (reload_daemon counting no_texts) w3 ≡ (5, none))
install_service_writes_example = install_service_writes counting no_texts true 0 5 installed
