-- ===== src/Tests/Inheritance.antt =====
-- Witnesses of what is proved of the heartbeat server and of the alarms.
use open_falcon.Prelude.{
  true, ◌++◌, refl, ℕ, ◌≡◌, ◌<◌, ◌≤◌, ◌⊎◌, List, [], ◌∷◌, Option, none, some, length, All,
}
use open_falcon.Prelude.Int.{ℤ, pos, eq_ℤ}
use open_falcon.Prelude.Text.{Str, str, itoa}
use open_falcon.Prelude.Maps.{Map}
use open_falcon.Prelude.Groups.{group_by}
use open_falcon.Float.{fixed_point}
use open_falcon.Model.{Template, Strategy, HostStrategy}
use open_falcon.Hbs.{parent_ids, get_strategies}
use open_falcon.Hbs.Ancestors.{Ascent, parent_ids-Ascent}
use open_falcon.Hbs.Inherit.{IsTold, get_strategies-IsTold}
use open_falcon.Alarm.{
  Letter, MailDto, ShortDto, write_all, combine_mail, short_key, short_text, write_short,
  combine_short,
}
use open_falcon.Alarm.Combined.{NoDup, has_key}
use open_falcon.Alarm.Letters.{EachMail, combine_mail-EachMail}
use open_falcon.Tests.{strategy}
use mathlib.Core.List.{reverse}

abbrev template : ℕ → ℕ → Template
template id parent = record {
  id = pos id;
  name = str "t";
  parent_id = pos parent;
  action_id = pos 1;
  creator = str "root";
}

-- A template and its child, and a cycle of two.
abbrev templates : Map ℤ Template
templates =
    (pos 1, template 1 0)
    ∷ (pos 2, template 2 1)
    ∷ (pos 3, template 3 4)
    ∷ (pos 4, template 4 3)
    ∷ []

parent_ids-Ascent_example :
    ((xs : List ℤ) × Ascent templates (pos 2) xs
      × (length xs < 10)
      × (parent_ids templates (pos 2) ≡ reverse xs))
    ⊎ ((parent_ids templates (pos 2) ≡ [])
        × ((xs : List ℤ) → Ascent templates (pos 2) xs → 10 ≤ length xs))
parent_ids-Ascent_example = parent_ids-Ascent templates (pos 2)

-- The strategy of the child takes the place of that of its parent.
abbrev strategies : Map ℤ (Option (Strategy ℤ))
strategies =
    (pos 5, some (record strategy { tpl = some (template 1 0) }))
    ∷ (pos 6, some (record strategy { id = pos 6; tpl = some (template 2 1) }))
    ∷ (pos 7, some (record strategy { id = pos 7 }))
    ∷ (pos 8, none)
    ∷ []

abbrev templates_of : Map ℤ (List ℤ)
templates_of = (pos 9, pos 1 ∷ pos 2 ∷ pos 3 ∷ []) ∷ []

abbrev names : Map ℤ Str
names = (pos 9, str "web1") ∷ []

get_strategies-IsTold_example :
    (hs : List (HostStrategy ℤ)) × (get_strategies templates_of names templates strategies
      ≡ some hs)
    × All (λ h. IsTold templates h.strategies × (0 < length h.strategies)) hs
get_strategies-IsTold_example = get_strategies-IsTold templates templates_of names strategies

abbrev mail : Str → MailDto
mail email = record {
  priority = pos 1;
  metric = str "load";
  subject = str "s";
  content = str "c";
  email = email;
  status = str "PROBLEM";
}

abbrev mails : List MailDto
mails = mail (str "a") ∷ mail (str "b") ∷ mail (str "a") ∷ []

combine_mail-EachMail_example :
    (keys : List Str) × (letters : List Letter) × (combine_mail mails ≡ some letters)
    × NoDup keys
    × EachMail mails keys letters
    × All (λ d. has_key (itoa d.priority ++ d.status ++ d.email ++ d.metric) keys ≡ true) mails
combine_mail-EachMail_example = combine_mail-EachMail mails

abbrev short : Str → ShortDto
short to = record {
  priority = pos 1;
  metric = str "load";
  content = str "[P1][PROBLEM][web1]";
  to = to;
  status = str "PROBLEM";
}

abbrev shorts : List ShortDto
shorts = short (str "1") ∷ short (str "2") ∷ short (str "1") ∷ []

abbrev linked : Str → Option Str
linked content = some (str "x1")

combined_shorts :
    combine_short linked (str "http") shorts
    ≡ some (
        record {
          to = str "1";
          subject = [];
          content = str "[P1][PROBLEM] 2 load e.g. web1] http/portal/links/x1 ";
        }
        ∷ record { to = str "2"; subject = []; content = str "[P1][PROBLEM][web1]" }
        ∷ [])
unfolding combine_short write_short short_text short_key group_by write_all itoa
combined_shorts = refl
