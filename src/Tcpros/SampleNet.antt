-- ===== src/Tcpros/SampleNet.antt =====
-- A network round the sample master, in which every address accepts and sends nothing.
use rosrust_async.Base.{◌+◌, Str, [], ◌∷◌, ok, err, Result}
use rosrust_async.Tcpros.Net.{Net, connection}
use rosrust_async.Xmlrpc.Samples.{Server}

abbrev pub parse_text : Str → Result (Unit {0}) Str
parse_text [] = err tt
parse_text (b ∷ s) = ok (b ∷ s)

abbrev pub sample_net : Net Server
sample_net = record {
  Url = Str;
  ParseError = Unit {0};
  parse_url = parse_text;
  url_text = λ url. url;
  socket_addrs = λ url s. (ok ((url, 80) ∷ []), s);
  connect = λ address s. (ok (connection [] []), record s { calls = s.calls + 1 });
  bind = λ address s. (ok (address.0, 40000), s);
}
