-- ===== src/Virt/Connection/Words.antt =====
-- The words that a shell reads in the commands of a connection.
use hummingbird_k8s.Base.{List, [], ◌∷◌, ◌++◌, ◌≡◌, refl, ap, ◌∙◌, some, Option}
use hummingbird_k8s.Text.{Text, text}
use hummingbird_k8s.Virt.Uri.{QemuSshUri, Instance, system, session, remote_uri, instance_text}
use hummingbird_k8s.Virt.Shell.{shell_quote}
use hummingbird_k8s.Virt.Shell.Words.{
  between, lex, shell_words, word_then, shell_words-shell_quote, is_literal,
}
use hummingbird_k8s.Virt.Connection.{
  virsh, domifaddr_command, dominfo_command, destroy_command, undefine_command,
  undefine_storage_command, ls_command, rm_f_command, rm_rf_command, path_exists_command,
  start_command, pool_refresh_command, cp_reflink_command, net_dumpxml_command, net_info_command,
  net_update_command,
}

-- Each command, read by a shell, is the list of words beside it.
abbrev pub Reads : List (Text × List Text) → Type 0
Reads [] = Unit
Reads ((command, words) ∷ rest) = (shell_words command ≡ some words) × Reads rest

-- The words in front of the others.
abbrev pub words_then : List Text → Option (List Text) → Option (List Text)
words_then [] o = o
words_then (w ∷ ws) o = word_then w (words_then ws o)

virsh-words :
    (uri : QemuSshUri) (rest : Text)
    → shell_words (virsh uri rest)
      ≡ words_then (text "virsh" ∷ text "-c" ∷ remote_uri uri ∷ []) (shell_words rest)
unfolding virsh remote_uri instance_text shell_words lex is_literal text
virsh-words uri rest = go uri.driver
  where
    go :
        (i : Instance)
        → lex between (text "virsh -c " ++ ((text "qemu:///" ++ instance_text i) ++ b' ' ∷ rest))
          ≡ words_then
              (text "virsh" ∷ text "-c" ∷ (text "qemu:///" ++ instance_text i) ∷ [])
              (lex between rest)
    go system = refl
    go session = refl

-- A command of one verb and one quoted argument.
one_argument :
    (uri : QemuSshUri) (verb : List Text) (rest : Text) (d : Text)
    → shell_words rest ≡ words_then verb (shell_words (shell_quote d))
    → shell_words (virsh uri rest)
      ≡ some (text "virsh" ∷ text "-c" ∷ remote_uri uri ∷ (verb ++ d ∷ []))
one_argument uri verb rest d e =
    virsh-words uri rest
    ∙ ap (words_then (text "virsh" ∷ text "-c" ∷ remote_uri uri ∷ [])) (
        e ∙ ap (words_then verb) ((shell_words-shell_quote d []).0) ∙ words_then-some verb (d ∷ []))
  where
    words_then-some : (ws vs : List Text) → words_then ws (some vs) ≡ some (ws ++ vs)
    words_then-some [] vs = refl
    words_then-some (w ∷ ws) vs = ap (word_then w) (words_then-some ws vs)

-- Each command of one argument on libvirt is read by a shell as `virsh -c <uri>`, the verb's words
-- and the argument, whatever characters the argument holds.
pub virsh_commands-Reads :
    (uri : QemuSshUri) (d : Text)
    → let on = λ (ws : List Text). text "virsh" ∷ text "-c" ∷ remote_uri uri ∷ ws in
      Reads (
        (domifaddr_command uri d, on (text "domifaddr" ∷ d ∷ []))
        ∷ (dominfo_command uri d, on (text "dominfo" ∷ d ∷ []))
        ∷ (destroy_command uri d, on (text "destroy" ∷ d ∷ []))
        ∷ (undefine_command uri d, on (text "undefine" ∷ text "--nvram" ∷ d ∷ []))
        ∷ (start_command uri d, on (text "start" ∷ d ∷ []))
        ∷ (pool_refresh_command uri d, on (text "pool-refresh" ∷ d ∷ []))
        ∷ (net_dumpxml_command uri d, on (text "net-dumpxml" ∷ d ∷ []))
        ∷ (net_info_command uri d, on (text "net-info" ∷ d ∷ []))
        ∷ [])
unfolding domifaddr_command dominfo_command destroy_command undefine_command start_command
    pool_refresh_command net_dumpxml_command net_info_command shell_words lex is_literal text
virsh_commands-Reads uri d = (
  one_argument uri (text "domifaddr" ∷ []) _ d refl,
  (
    one_argument uri (text "dominfo" ∷ []) _ d refl,
    (
      one_argument uri (text "destroy" ∷ []) _ d refl,
      (
        one_argument uri (text "undefine" ∷ text "--nvram" ∷ []) _ d refl,
        (
          one_argument uri (text "start" ∷ []) _ d refl,
          (
            one_argument uri (text "pool-refresh" ∷ []) _ d refl,
            (
              one_argument uri (text "net-dumpxml" ∷ []) _ d refl,
              (one_argument uri (text "net-info" ∷ []) _ d refl, tt),
            ),
          ),
        ),
      ),
    ),
  ),
)

-- A quoted argument with more words behind it.
before_space :
    (d rest : Text) → shell_words (shell_quote d ++ b' ' ∷ rest) ≡ word_then d (shell_words rest)
before_space d rest = (shell_words-shell_quote d rest).1

last_word : (d : Text) → shell_words (shell_quote d) ≡ some (d ∷ [])
last_word d = (shell_words-shell_quote d []).0

-- The commands on paths, and those with words behind an argument, are read by a shell as their
-- arguments, whatever characters the arguments hold; the XML element of a DHCP reservation is one
-- word.
pub path_commands-Reads :
    (uri : QemuSshUri) (a b : Text)
    → Reads (
        (ls_command a, text "ls" ∷ text "-1" ∷ text "--" ∷ a ∷ [])
        ∷ (rm_f_command a, text "rm" ∷ text "-f" ∷ text "--" ∷ a ∷ [])
        ∷ (rm_rf_command a, text "rm" ∷ text "-rf" ∷ text "--" ∷ a ∷ [])
        ∷ (path_exists_command a, text "test" ∷ text "-e" ∷ a ∷ [])
        ∷ (cp_reflink_command a b, text "cp" ∷ text "--reflink=auto" ∷ a ∷ b ∷ [])
        ∷ (
          undefine_storage_command uri a,
          text "virsh"
              ∷ text "-c"
              ∷ remote_uri uri
              ∷ text "undefine"
              ∷ a
              ∷ text "--remove-all-storage"
              ∷ text "--nvram"
              ∷ [],
        )
        ∷ (
          net_update_command uri (text "add") a b,
          text "virsh"
              ∷ text "-c"
              ∷ remote_uri uri
              ∷ text "net-update"
              ∷ a
              ∷ text "add"
              ∷ text "ip-dhcp-host"
              ∷ b
              ∷ text "--live"
              ∷ text "--config"
              ∷ [],
        )
        ∷ [])
unfolding ls_command rm_f_command rm_rf_command path_exists_command cp_reflink_command
    undefine_storage_command net_update_command shell_words lex is_literal text
path_commands-Reads uri a b = (
  ap (words_then (text "ls" ∷ text "-1" ∷ text "--" ∷ [])) (last_word a),
  (
    ap (words_then (text "rm" ∷ text "-f" ∷ text "--" ∷ [])) (last_word a),
    (
      ap (words_then (text "rm" ∷ text "-rf" ∷ text "--" ∷ [])) (last_word a),
      (
        ap (words_then (text "test" ∷ text "-e" ∷ [])) (last_word a),
        (
          ap (words_then (text "cp" ∷ text "--reflink=auto" ∷ []))
              (before_space a (shell_quote b) ∙ ap (word_then a) (last_word b)),
          (
            virsh-words uri _
                ∙ ap (words_then (text "virsh" ∷ text "-c" ∷ remote_uri uri ∷ text "undefine" ∷ []))
                    (before_space a (text "--remove-all-storage --nvram") ∙ refl),
            (
              virsh-words uri _
                  ∙ ap
                      (words_then
                        (text "virsh" ∷ text "-c" ∷ remote_uri uri ∷ text "net-update" ∷ []))
                      (before_space a
                          (text "add ip-dhcp-host " ++ (shell_quote b ++ text " --live --config"))
                        ∙ ap (words_then (a ∷ text "add" ∷ text "ip-dhcp-host" ∷ []))
                            (before_space b (text "--live --config") ∙ refl)),
              tt,
            ),
          ),
        ),
      ),
    ),
  ),
)
