-- ===== src/Symtable/Rows7.antt =====
-- src/symtable.rs: the rows of lines 873 to 1015.
use docsis_config_generator.Common.{List, [], ◌∷◌}
use docsis_config_generator.Symbol.{Symbol, Enc, Render}
use docsis_config_generator.Symtable.Row.{row}

abbrev pub rows7 : List Symbol
rows7 =
    row 1152 "MPLSPseudowireType" 3 1149 Enc.uchar Render.uchar 0 0
    ∷ row 1153 "MPLSBackupPseudowireID" 4 1149 Enc.uint Render.uint 0 0
    ∷ row 1154 "MPLSBackupPeerIpAddress" 5 1149 Enc.char_ip_ip6 Render.char_ip_ip6 0 0
    ∷ row 1155 "ServiceMultiplexingValueL2TPv3Peer" 5 1145 Enc.char_ip_ip6 Render.char_ip_ip6 0 0
    ∷ row 1156 "IEEE8021ahEncapsulation" 6 1145 Enc.nothing Render.aggregate 0 0
    ∷ row 1157 "ITCIEncapsulation" 1 1156 Enc.hexstr Render.hexstr 4 4
    ∷ row 1158 "BDAEncapsulation" 2 1156 Enc.hexstr Render.hexstr 6 6
    ∷ row 1159 "BTCIEncapsulation" 3 1156 Enc.hexstr Render.hexstr 2 2
    ∷ row 1160 "ITPIDEncapsulation" 4 1156 Enc.hexstr Render.hexstr 2 2
    ∷ row 1161 "IPCPEncapsulation" 5 1156 Enc.hexstr Render.hexstr 1 1
    ∷ row 1162 "IDEIEncapsulation" 6 1156 Enc.hexstr Render.hexstr 1 1
    ∷ row 1163 "IUCAEncapsulation" 7 1156 Enc.hexstr Render.hexstr 1 1
    ∷ row 1164 "ISIDEncapsulation" 8 1156 Enc.hexstr Render.hexstr 3 3
    ∷ row 1165 "BTPIDEncapsulation" 9 1156 Enc.hexstr Render.hexstr 2 2
    ∷ row 1166 "BPCPEncapsulation" 10 1156 Enc.hexstr Render.hexstr 1 1
    ∷ row 1167 "BDEIEncapsulation" 11 1156 Enc.hexstr Render.hexstr 1 1
    ∷ row 1168 "BVIDEncapsulation" 12 1156 Enc.hexstr Render.hexstr 2 2
    ∷ row 1169 "ServiceMultiplexingValueIEEE8021adSTPID" 8 1145 Enc.hexstr Render.hexstr 2 2
    ∷ row 1170 "eSAFEDHCPSnooping" 3 1143 Enc.hexstr Render.hexstr 0 0
    ∷ row 1171 "CMInterfaceMaskCMIMSubtype" 4 1143 Enc.hexstr Render.hexstr 0 0
    ∷ row 1172 "AttachmentGroupID" 5 1143 Enc.hexstr Render.hexstr 0 0
    ∷ row 1173 "SourceAttachmentIndividualID" 6 1143 Enc.hexstr Render.hexstr 0 0
    ∷ row 1174 "TargetAttachmentIndividualID" 7 1143 Enc.hexstr Render.hexstr 0 0
    ∷ row 1175 "IngressUserPriority" 8 1143 Enc.uchar Render.uchar 0 7
    ∷ row 1176 "UserPriorityRange" 9 1143 Enc.char_list Render.char_list 0 0
    ∷ row 1177 "L2VPNSADescriptorSubtype" 10 1143 Enc.hexstr Render.hexstr 14 14
    ∷ row 1178 "PseudowireType" 12 1143 Enc.uchar Render.uchar 4 5
    ∷ row 1179 "L2VPNMode" 13 1143 Enc.uchar Render.uchar 0 1
    ∷ row 1180 "TPIDTranslation" 14 1143 Enc.nothing Render.aggregate 0 0
    ∷ row 1181 "UpstreamTPIDTranslation" 1 1180 Enc.hexstr Render.hexstr 2 2
    ∷ row 1182 "DownstreamTPIDTranslation" 2 1180 Enc.hexstr Render.hexstr 2 2
    ∷ row 1183 "UpstreamSTPIDTranslation" 3 1180 Enc.hexstr Render.hexstr 2 2
    ∷ row 1184 "DownstreamSTPIDTranslation" 4 1180 Enc.hexstr Render.hexstr 2 2
    ∷ row 1185 "UpstreamBTPIDTranslation" 5 1180 Enc.hexstr Render.hexstr 2 2
    ∷ row 1186 "DownstreamBTPIDTranslation" 6 1180 Enc.hexstr Render.hexstr 2 2
    ∷ row 1187 "UpstreamITPIDTranslation" 7 1180 Enc.hexstr Render.hexstr 2 2
    ∷ row 1188 "DownstreamITPIDTranslation" 8 1180 Enc.hexstr Render.hexstr 2 2
    ∷ row 1189 "L2CPProcessing" 15 1143 Enc.nothing Render.aggregate 0 0
    ∷ row 1190 "L2CPTunnelMode" 1 1189 Enc.uchar Render.uchar 0 1
    ∷ row 1191 "L2CPDMACAddress" 2 1189 Enc.ether Render.ether 0 0
    ∷ row 1192 "L2CPOverwrotingDMACAddress" 3 1189 Enc.ether Render.ether 0 0
    ∷ row 1193 "DACDisableEnableConfiguration" 16 1143 Enc.uchar Render.uchar 0 1
    ∷ row 1194 "PseudowireClass" 18 1143 Enc.hexstr Render.hexstr 0 0
    ∷ row 1195 "ServiceDelimiter" 19 1143 Enc.nothing Render.aggregate 0 0
    ∷ row 1196 "CVIDDelimiter" 1 1195 Enc.hexstr Render.hexstr 2 2
    ∷ row 1197 "SVIDDelimiter" 2 1195 Enc.hexstr Render.hexstr 2 2
    ∷ row 1198 "ISIDDelimiter" 3 1195 Enc.hexstr Render.hexstr 3 3
    ∷ row 1199 "BVIDDelimiter" 4 1195 Enc.hexstr Render.hexstr 2 2
    ∷ row 1200 "VirtualSwitchInstanceEncoding" 20 1143 Enc.nothing Render.aggregate 0 0
    ∷ row 1201 "VPLSClass" 1 1200 Enc.hexstr Render.hexstr 0 0
    ∷ row 1202 "ETreeRole" 2 1200 Enc.uchar Render.uchar 0 1
    ∷ row 1203 "ETreeRootVID" 3 1200 Enc.hexstr Render.hexstr 2 2
    ∷ row 1204 "ETreeLeafVID" 4 1200 Enc.hexstr Render.hexstr 2 2
    ∷ row 1205 "BGPAttribute" 21 1143 Enc.nothing Render.aggregate 0 0
    ∷ row 1206 "BGPVPNID" 1 1205 Enc.uint Render.uint 0 0
    ∷ row 1207 "RouteDistinguisher" 2 1205 Enc.hexstr Render.hexstr 8 8
    ∷ row 1208 "RouteTargetImport" 3 1205 Enc.hexstr Render.hexstr 0 0
    ∷ row 1209 "RouteTargetExport" 4 1205 Enc.hexstr Render.hexstr 0 0
    ∷ row 1210 "CEIDVEID" 5 1205 Enc.ushort Render.ushort 0 0
    ∷ row 1211 "PseudowireSignaling" 23 1143 Enc.uchar Render.uchar 0 2
    ∷ row 1212 "SOAMSubtype" 24 1143 Enc.nothing Render.aggregate 0 0
    ∷ row 1213 "MEPConfiguration" 1 1212 Enc.nothing Render.aggregate 0 0
    ∷ row 1214 "MDLevel" 1 1213 Enc.uchar Render.uchar 0 7
    ∷ row 1215 "MDName" 2 1213 Enc.string Render.string 2 16
    ∷ row 1216 "MAName" 3 1213 Enc.string Render.string 2 28
    ∷ row 1217 "MEPID" 4 1213 Enc.ushort Render.ushort 1 8191
    ∷ row 1218 "RemoteMEPConfiguration" 2 1212 Enc.nothing Render.aggregate 0 0
    ∷ row 1219 "RemoteMDLevel" 1 1218 Enc.uchar Render.uchar 0 7
    ∷ row 1220 "RemoteMDName" 2 1218 Enc.string Render.string 2 16
    ∷ row 1221 "RemoteMAName" 3 1218 Enc.string Render.string 2 28
    ∷ row 1222 "RemoteMEPID" 4 1218 Enc.ushort Render.ushort 1 8191
    ∷ row 1223 "FaultManagementConfiguration" 3 1212 Enc.nothing Render.aggregate 0 0
    ∷ row 1224 "ContinuityCheckMessages" 1 1223 Enc.uchar Render.uchar 0 2
    ∷ row 1225 "LoopbackFunction" 2 1223 Enc.uchar Render.uchar 0 1
    ∷ row 1226 "LinktraceFunction" 3 1223 Enc.uchar Render.uchar 0 1
    ∷ row 1227 "PerformanceManagementConfiguration" 4 1212 Enc.nothing Render.aggregate 0 0
    ∷ row 1228 "FrameDelayMeasurement" 1 1227 Enc.nothing Render.aggregate 0 0
    ∷ row 1229 "FrameDelayMeasurementEnable" 1 1228 Enc.uchar Render.uchar 0 1
    ∷ row 1230 "FrameDelayMeasurementOneWayTwoWay" 2 1228 Enc.uchar Render.uchar 0 1
    ∷ row 1231 "FrameDelayMeasurementTransmissionPeriodicity" 3 1228 Enc.ushort Render.ushort 0 0
    ∷ row 1232 "FrameLossMeasurement" 2 1227 Enc.nothing Render.aggregate 0 0
    ∷ row 1233 "FrameLossMeasurementEnable" 1 1232 Enc.uchar Render.uchar 0 1
    ∷ row 1234 "FrameLossMeasurementTransmissionPeriodicity" 2 1232 Enc.uchar Render.uchar 0 0
    ∷ row 2050 "VPNSGAttribute" 22 1143 Enc.string Render.string 1 16
    ∷ row 2051 "L2VPNNetworkTimingProfileReference" 25 1143 Enc.ushort Render.ushort 0 65535
    ∷ row 1235 "L2VPNDSID" 26 1143 Enc.uint24 Render.uint24 1 1048575
    ∷ row 2052 "L2VPNMultipointForwardingMode" 27 1143 Enc.uchar Render.uchar 0 1
    ∷ row 1236 "VendorSpecificL2VPNSubtype" 43 1143 Enc.nothing Render.aggregate 0 0
    ∷ row 1237 "VendorIdentifier" 8 1236 Enc.hexstr Render.hexstr 3 3
    ∷ row 1238 "ExtendedCMTSMICConfigurationSetting" 6 1138 Enc.nothing Render.aggregate 0 0
    ∷ row 1239 "ExtendedCMTSMICHMACtype" 1 1238 Enc.uchar Render.uchar 0 0
    ∷ row 1240 "ExtendedCMTSMICBitmap" 2 1238 Enc.hexstr Render.hexstr 0 0
    ∷ row 1241 "ExplicitExtendedCMTSMICDigest" 3 1238 Enc.hexstr Render.hexstr 0 0
    ∷ row 1242 "SAVAuthorizationEncoding" 7 1138 Enc.nothing Render.aggregate 0 0
    ∷ row 1243 "SAVGroupName" 1 1242 Enc.string Render.string 1 15
    ∷ row 1244 "SAVStaticPrefixRule" 2 1242 Enc.nothing Render.aggregate 0 0
    ∷ row 1245 "SAVStaticPrefixAddress" 1 1244 Enc.ip_ip6 Render.ip_ip6 0 0
    ∷ row 1246 "SAVStaticPrefixLength" 2 1244 Enc.uchar Render.uchar 0 0
    ∷ row 1247 "VendorIdentifier" 8 1138 Enc.hexstr Render.hexstr 3 3
    ∷ row 1248 "CMAttributeMasks" 9 1138 Enc.nothing Render.aggregate 0 0
    ∷ row 1249 "CMDownstreamRequiredAttributeMask" 1 1248 Enc.hexstr Render.hexstr 4 4
    ∷ row 1250 "CMDownstreamForbiddenAttributeMask" 2 1248 Enc.hexstr Render.hexstr 4 4
    ∷ row 1251 "CMUpstreamRequiredAttributeMask" 3 1248 Enc.hexstr Render.hexstr 4 4
    ∷ row 1252 "CMUpstreamForbiddenAttributeMask" 4 1248 Enc.hexstr Render.hexstr 4 4
    ∷ row 1253 "IPMulticastJoinAuthorization" 10 1138 Enc.nothing Render.aggregate 0 0
    ∷ row 1254 "IPMulticastProfileName" 1 1253 Enc.string Render.string 1 15
    ∷ row 1255 "IPMulticastJoinAuthStaticSessionRule" 2 1253 Enc.nothing Render.aggregate 0 0
    ∷ row 1256 "MulticastRulePriority" 1 1255 Enc.uchar Render.uchar 0 255
    ∷ row 1257 "AuthorizationAction" 2 1255 Enc.uchar Render.uchar 0 1
    ∷ row 1258 "SourcePrefixAddress" 3 1255 Enc.ip_ip6 Render.ip_ip6 0 0
    ∷ row 1259 "SourcePrefixLength" 4 1255 Enc.uchar Render.uchar 0 128
    ∷ row 1260 "GroupPrefixAddress" 5 1255 Enc.ip_ip6 Render.ip_ip6 0 0
    ∷ row 1261 "GroupPrefixLength" 6 1255 Enc.uchar Render.uchar 0 128
    ∷ row 1262 "MaximumMulticastSessions" 3 1253 Enc.ushort Render.ushort 0 0
    ∷ row 1263 "ServiceTypeIdentifier" 11 1138 Enc.string Render.string 1 16
    ∷ row 1264 "DEMARCAutoConfiguration" 12 1138 Enc.nothing Render.aggregate 0 0
    ∷ row 1265 "DACDisableEnableConfig" 1 1264 Enc.uchar Render.uchar 0 1
    ∷ row 1266 "CMIMEncoding" 2 1264 Enc.hexstr Render.hexstr 0 0
    ∷ row 1267 "UpstreamServiceClassName" 3 1264 Enc.strzero Render.strzero 2 16
    ∷ row 1268 "DownstreamServiceClassName" 4 1264 Enc.strzero Render.strzero 2 16
    ∷ row 125 "MaxClassifiers" 28 0 Enc.ushort Render.ushort 0 0
    ∷ row 126 "GlobalPrivacyEnable" 29 0 Enc.uchar Render.uchar 0 1
    ∷ row 129 "MfgCVCData" 32 0 Enc.hexstr Render.hexstr 0 255
    ∷ row 170 "ManufacturerCVC" 32 0 Enc.nothing Render.hexstr 0 255
    ∷ row 171 "CoSignerCVCData" 33 0 Enc.hexstr Render.hexstr 0 255
    ∷ row 172 "CoSignerCVC" 33 0 Enc.nothing Render.hexstr 0 255
    ∷ row 132 "SnmpV3Kickstart" 34 0 Enc.nothing Render.aggregate 0 0
    ∷ row 133 "SnmpV3SecurityName" 1 132 Enc.string Render.string 1 16
    ∷ row 134 "SnmpV3MgrPublicNumber" 2 132 Enc.hexstr Render.hexstr 1 514
    ∷ row 154 "SubMgmtControl" 35 0 Enc.hexstr Render.hexstr 3 3
    ∷ row 477 "SubscriberManagementCPEIPTable" 36 0 Enc.ip_list Render.ip_list 0 0
    ∷ row 155 "SubMgmtFilters" 37 0 Enc.ushort_list Render.ushort_list 4 10
    ∷ row 135 "SnmpV3TrapReceiver" 38 0 Enc.nothing Render.aggregate 0 0
    ∷ row 136 "SnmpV3TrapRxIP" 1 135 Enc.ip Render.ip 0 0
    ∷ row 137 "SnmpV3TrapRxPort" 2 135 Enc.ushort Render.ushort 0 0
    ∷ row 138 "SnmpV3TrapRxType" 3 135 Enc.ushort Render.ushort 1 5
    ∷ row 139 "SnmpV3TrapRxTimeout" 4 135 Enc.ushort Render.ushort 0 65535
    ∷ row 140 "SnmpV3TrapRxRetries" 5 135 Enc.ushort Render.ushort 0 65535
    ∷ row 141 "SnmpV3TrapRxFilterOID" 6 135 Enc.oid Render.oid 1 5
    ∷ row 142 "SnmpV3TrapRxSecurityName" 7 135 Enc.string Render.string 1 16
    ∷ row 533 "SnmpV3TrapRxIP6" 8 135 Enc.ip6 Render.ip6 0 0
    ∷ row 143 "DocsisTwoEnable" 39 0 Enc.uchar Render.uchar 0 1
    ∷ row 532 "EnableTestModes" 40 0 Enc.uchar Render.uchar 0 1
    ∷ []
