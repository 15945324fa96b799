-- ===== src/Abuse/Page.antt =====
-- src/shortener/abuse.py, `INTERSTITIAL_HTML` and `render_interstitial`. `html.escape` is an argument.
pub mod Markup
use url_shortener_100x.Prelude.{◌++◌, Text, codes}

-- The text of `INTERSTITIAL_HTML` around `%(reason)s` and the two `%(target)s`.
abbrev pub before_reason : Text
before_reason =
    codes "<!doctype html><meta charset=\"utf-8\">\n"
    ++ codes "<title>Leaving - check this link</title>\n"
    ++ codes "<style>body{font:15px/1.6 -apple-system,Segoe UI,Roboto,sans-serif;max-width"
    ++ codes ":640px;\n"
    ++ codes "margin:12vh auto;padding:0 20px;color:#222}\n"
    ++ codes ".dest{background:#f6f6f6;border:1px solid #e2e2e2;border-radius:6px;padding:"
    ++ codes "12px;\n"
    ++ codes "word-break:break-all;font-family:ui-monospace,Menlo,Consolas,monospace;font-"
    ++ codes "size:13px}\n"
    ++ codes ".why{color:#8a6d1f;background:#fff9e6;border:1px solid #f0e0a8;border-radius"
    ++ codes ":6px;padding:10px 12px}\n"
    ++ codes "a.go{display:inline-block;margin-top:18px;padding:9px 16px;background:#222;c"
    ++ codes "olor:#fff;\n"
    ++ codes "border-radius:6px;text-decoration:none}\n"
    ++ codes ".small{color:#888;font-size:12.5px;margin-top:22px}</style>\n"
    ++ codes "<h2>You are about to leave</h2>\n"
    ++ codes "<p class=\"why\">"

abbrev pub before_target : Text
before_target =
    codes "</p>\n" ++ codes "<p>This short link points to:</p>\n" ++ codes "<div class=\"dest\">"

abbrev pub before_href : Text
before_href =
    codes "</div>\n" ++ codes "<a class=\"go\" rel=\"noopener noreferrer nofollow\" href=\""

abbrev pub after_href : Text
after_href =
    codes "\">Continue to this site</a>\n"
    ++ codes "<p class=\"small\">The destination is shown in full because a short link hides"
    ++ codes " it, and\n"
    ++ codes "hiding the destination is what makes short links useful to phishing. Nothing"
    ++ codes " on this\n"
    ++ codes "page loads from the destination.</p>\n"

-- `%` on a template in four parts: the reason after the first, the target after the next two.
unfoldable pub fill : Text → Text → Text → Text → Text → Text → Text
fill a b c d target reason = a ++ (reason ++ (b ++ (target ++ (c ++ (target ++ d)))))

unfoldable pub render_interstitial : (Text → Text) → Text → Text → Text
unfolding fill
render_interstitial escape target reason =
    fill before_reason before_target before_href after_href (escape target) (escape reason)
