-- ===== src/UserLabels/Tests.antt =====
-- Labels of concrete users.
use kube_op.Prelude.{◌≡◌, ◌≢◌, refl, []}
use kube_op.Text.{text}
use kube_op.UserLabels.{
  sanitize_user_label, resolve_user_label, IsUserLabel, resolve_user_label-IsUserLabel,
}

-- Runs of other bytes become one dash, but dashes of the name stay; and a name that has no allowed
-- byte gives "user", not the email.
labels :
    (sanitize_user_label (text " Alice @ Example ") ≡ text "alice-example")
    × (sanitize_user_label (text "a--b") ≡ text "a--b")
    × (resolve_user_label (text "@@") (text "bob@example.com") (text "42") ≡ text "user")
    × (resolve_user_label [] [] (text "0123456789") ≡ text "user-01234567")
unfolding sanitize_user_label resolve_user_label
labels = (refl, refl, refl, refl)

symbols_ne_nil : text "@@" ≢ []
symbols_ne_nil = cc

resolve_user_label-IsUserLabel_example :
    (resolve_user_label (text "@@") (text "bob@example.com") (text "42")
      ≡ sanitize_user_label (text "@@"))
    × IsUserLabel (resolve_user_label (text "@@") (text "bob@example.com") (text "42"))
resolve_user_label-IsUserLabel_example =
    resolve_user_label-IsUserLabel (text "@@") (text "bob@example.com") (text "42") symbols_ne_nil
