-- ===== src/Listen/Tests.antt =====
-- internal/imapserver/server.go and internal/smtpserver/server.go: listeners on a loopback address.
use git2imap.Base.{refl, Bool, true, false, Option, none, some, Text, [], codes, beq, All}
use git2imap.Config.{ImapConfig, SmtpConfig, pos}
use git2imap.Listen.{
  Net, Server, Servers, Guarded, serve, imap_new, smtp_new, load_tls_config, serve-Guarded,
}

abbrev net : Net
net = record {
  Certificate = Text;
  load_key_pair = λ cert key. some cert;
  split_host_port = λ addr. some (addr, []);
  parse_ip = λ host. none;
}

abbrev imap : ImapConfig
imap = record {
  addr = codes "localhost";
  tls_addr = [];
  tls_cert = [];
  tls_key = [];
  allow_insecure_auth = false;
  idle_fetch_interval = pos 60;
}

abbrev smtp : SmtpConfig
smtp = record {
  addr = codes "localhost";
  tls_addr = codes "mail.test";
  tls_cert = codes "cert";
  tls_key = codes "key";
  max_message = pos 100;
  allow_insecure_auth = false;
}

abbrev server : Text → Bool → Option Text → Bool → Server net
server addr implicit tls insecure = record {
  addr = addr;
  implicit = implicit;
  tls = tls;
  insecure_auth = insecure;
}

abbrev imap_pair : Servers net
imap_pair = record {
  plain = server (codes "localhost") false none true;
  implicit = server [] true none false;
}

abbrev smtp_pair : Servers net
smtp_pair = record {
  plain = server (codes "localhost") false (some (codes "cert")) false;
  implicit = server (codes "mail.test") true (some (codes "cert")) false;
}

serve-Guarded_example :
    All (Guarded net false) (serve net [] imap_pair)
    × All (Guarded net false) (serve net (codes "cert") smtp_pair)
unfolding imap_new smtp_new load_tls_config beq
serve-Guarded_example = serve-Guarded net imap smtp imap_pair smtp_pair refl refl
