-- ===== src/Tests/Email.antt =====
-- The theorems on e-mail at concrete inputs.
use a2z_core.Prelude.{◌≡◌, refl, false, ◌==◌, none, some, List, [], ◌∷◌, count}
use a2z_core.Prelude.Text.{codes, text_beq}
use a2z_core.Core.Email.{ServiceType, Post, Answers, Email}
use a2z_core.Core.Email.Blocks.{is_to}
use a2z_core.Core.Email.Suppressed.{
  Request, sending, bouncing, complaining, unsuppressing, run, run-suppressed,
}

abbrev answers : Answers
answers = record {
  settings = some (none, []);
  is_space = λ c. c == 32;
  html_to_text = λ s. s;
  destination_fails = false;
  hz = 1;
  monotonic = 10;
  ses = some 4;
  table_fails = false;
  audit_fails = false;
  publish_fails = false;
}

abbrev email : Email
email = record {
  to = codes "a@b.c";
  subject = codes "s";
  body_html = codes "h";
  body_text = none;
  reply_to = none;
}

abbrev post : Post
post = record { suppression = []; events = []; windows = []; config_sets = []; sent = [] }

abbrev bounced : Request
bounced = bouncing answers 5 4 (codes "a@b.c") (codes "Permanent")

abbrev requests : List Request
requests =
    sending answers 5 ServiceType.invoicing email
    ∷ sending answers 6 ServiceType.omnichannel email
    ∷ unsuppressing answers 6 (codes "a@b.c")
    ∷ complaining answers 5 4 (codes "d@b.c")
    ∷ sending answers 5 ServiceType.omnichannel email
    ∷ []

run-suppressed_example :
    count (is_to (5, codes "a@b.c")) (run (bounced ∷ requests) post).sent
    ≡ count (is_to (5, codes "a@b.c")) post.sent
run-suppressed_example =
    run-suppressed (5, codes "a@b.c") bounced requests post (refl, refl)
      (tt, (tt, (unfold text_beq in refl, (tt, (tt, tt)))))
