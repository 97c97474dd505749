-- ===== src/SshConfig/Tests.antt =====
-- The lines of a small configuration of ssh.
use sshwarden.Base.{
  keep_end, trim_with, fold, is_whitespace, text_eq, join, trim_end_with, trim_start_with, end_line,
  ◌≡◌, refl, true, false, [], ◌∷◌, ◌++◌, none, some, Text, codes, ok, any, lines, OneLine, trim,
}
use sshwarden.Config.{absolute}
use sshwarden.SshConfig.{
  line_matches_current_or_legacy_sshwarden_include, PathLib, include_line_with_style, marker,
}
use sshwarden.SshConfig.Include.{Weather, ConfigFile, holds, write_sshwarden_include_line}
use sshwarden.SshConfig.Rounds.{IsLine}
use sshwarden.SshConfig.Written.{write_sshwarden_include_line_idem}

abbrev linux : PathLib
linux = record {
  home = some (codes "/h");
  legacy = some (codes "/h/.ssh/sshwarden_config");
  strip_path = λ path home. none;
}

abbrev managed : Text
managed = codes "/h/a b"

-- A file with an old unquoted line, and one line of the user's.
abbrev old_file : ConfigFile
old_file = holds (codes "Host a" ++ 10 ∷ codes "Include /h/a b" ++ 10 ∷ [])

abbrev sunny : Weather
sunny = record { creates_directory = true; path_style = some absolute; writes = true }

written : write_sshwarden_include_line linux managed sunny old_file ≡ (
  ok tt,
  holds (codes "Host a" ++ 10 ∷ 10 ∷ marker ++ 10 ∷ codes "Include \"/h/a b\"" ++ 10 ∷ []),
)
unfolding write_sshwarden_include_line any lines text_eq trim trim_with trim_end_with
    trim_start_with is_whitespace keep_end include_line_with_style fold
    line_matches_current_or_legacy_sshwarden_include end_line join
written = refl

abbrev managed-OneLine : OneLine managed
managed-OneLine = (refl, (refl, (refl, (refl, (refl, (refl, tt))))))

write_sshwarden_include_line_idem_example :
    let file' = (write_sshwarden_include_line linux managed sunny old_file).1 in
    write_sshwarden_include_line linux managed (record sunny { writes = false }) file'
    ≡ (ok tt, file')
unfolding write_sshwarden_include_line any lines text_eq trim trim_with trim_end_with
    trim_start_with is_whitespace keep_end include_line_with_style
write_sshwarden_include_line_idem_example =
    write_sshwarden_include_line_idem linux managed absolute true true false old_file
      managed-OneLine refl

host_line_trimmed : trim (codes "Host a") ≡ codes "Host a"
unfolding trim trim_with trim_end_with trim_start_with is_whitespace keep_end
host_line_trimmed = refl

abbrev host_line-IsLine : IsLine (codes "Host a")
host_line-IsLine = record {
  one_line = (refl, (refl, (refl, (refl, (refl, (refl, tt))))));
  trimmed = host_line_trimmed;
  filled = refl;
}
